-- ===== src/Dispatch/Table.antt =====
-- `mod_tbl` (module_table.h): the modules of the bot, over the list of what they have done.
use gnuweeb_bot.Base.{
  ℕ, ◌-◌, none, some, List, [], ◌∷◌, ◌++◌, ◌≡◌, Bytes, length, Outcome, ok, crash, ◌>>=◌,
}
use gnuweeb_bot.Base.Int.{ℤ, pos}
use gnuweeb_bot.Server.State.{Sys}
use gnuweeb_bot.Admin.{AdminEnv}
use gnuweeb_bot.Admin.Exec.{Call, Answer}
use gnuweeb_bot.Admin.Exec.Report.{exec_cmd}
use gnuweeb_bot.Tg.Json.{JsonApi}
use gnuweeb_bot.Tg.Event.{Tgev}
use gnuweeb_bot.Modules.{Act, Done}
use gnuweeb_bot.Modules.Debug.{reply_size, debug_entry, standard_entry}
use gnuweeb_bot.Modules.Translate.{Fetched, do_translate}
use gnuweeb_bot.Modules.Admin.{admin_entry}
use gnuweeb_bot.Dispatch.{Module}

-- What the modules find: the bytes of `reply_text` before it is written, json-c's text of the packet,
-- the translation service, what the lookup of the administrators returns, and what the Telegram API
-- answers to the calls of a command.
pub record Env (api : JsonApi) : Type 0 where
  pub page : Bytes
  pub page_size : length page ≡ reply_size - 5
  pub pretty : Bytes
  pub fetch_api : Bytes → Fetched api
  pub admins : Sys (List ℕ)
  pub ask : List Call → Answer api

-- The functions of the commands at an event are those of the administration module.
abbrev pub chat_at : (api : JsonApi) → Env api → Tgev → AdminEnv
chat_at api env evt = record {
  admins = env.admins;
  exec = λ cmd target reason. exec_cmd api env.ask evt cmd target reason >>= λ ran. ok ran.1;
}

-- What is done by the time a module returns.
abbrev pub recorded : List Act → Done → Outcome (List Act × ℤ)
recorded acts (ok (new, ret)) = ok (acts ++ new, ret)
recorded acts (crash x) = crash x

-- `GWMOD_REG`: all of the modules have a startup and a shutdown that do nothing and return 0.
abbrev pub register : (Tgev → Done) → ℕ → Module (List Act)
register entry mask = record {
  startup = some (λ acts. ok (acts, pos 0));
  shutdown = some (λ acts. ok (acts, pos 0));
  entry = some (λ evt acts. recorded acts (entry evt));
  event_mask = mask;
}

-- `GWMOD_REG_END`
abbrev pub end_of_table : Module (List Act)
end_of_table = record { startup = none; shutdown = none; entry = none; event_mask = 0 }

-- TGEV_TEXT | TGEV_PHOTO
abbrev pub text_or_photo : ℕ
text_or_photo = 6

unfoldable pub mod_tbl : (api : JsonApi) → Env api → List (Module (List Act))
unfolding debug_entry standard_entry do_translate admin_entry
mod_tbl api env =
    register (debug_entry env.page env.pretty) text_or_photo
    ∷ register standard_entry text_or_photo
    ∷ register (do_translate api env.fetch_api) text_or_photo
    ∷ register (λ evt. admin_entry (chat_at api env evt) evt) text_or_photo
    ∷ end_of_table
    ∷ []
