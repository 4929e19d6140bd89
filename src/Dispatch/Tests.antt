-- ===== src/Dispatch/Tests.antt =====
-- Runs of the event handler, and its theorems at a concrete table and packet.
use gnuweeb_bot.Base.{
  ℕ, suc, ◌≡◌, ◌≢◌, refl, false, true, none, some, [], ◌∷◌, ◌++◌, ◌-◌, List, replicate,
  length-replicate, Bytes, codes, ok, arith,
}
use gnuweeb_bot.Base.Int.{ℤ, pos}
use gnuweeb_bot.Server.State.{done}
use gnuweeb_bot.Admin.Exec.{Call, Answer, json}
use gnuweeb_bot.Tg.Sample.{tree, Doc, number, object, member, end, ban, ban_event}
use gnuweeb_bot.Modules.{Act, canceled}
use gnuweeb_bot.Modules.Debug.{reply_size}
use gnuweeb_bot.Modules.Translate.{invalid}
use gnuweeb_bot.Dispatch.{Module, run_modules, gwbot_module_startup}
use gnuweeb_bot.Dispatch.Order.{Takes, Passed, finished, masked, declined, run_modules-first}
use gnuweeb_bot.Dispatch.Table.{Env, mod_tbl}

-- Modules that count how often they are called, and return a number.
abbrev counter : ℕ → ℤ → Module ℕ
counter mask ret = record {
  startup = none;
  shutdown = none;
  entry = some (λ evt w. ok (suc w, ret));
  event_mask = mask;
}

abbrev page : Bytes
page = replicate (reply_size - 5) 0

abbrev fulfils : List Call → Answer tree
fulfils calls = json (some (object (member (codes "ok") (number 1) end)))

abbrev env : Env tree
env = record {
  page = page;
  page_size = length-replicate {A = ℕ} (reply_size - 5) 0;
  pretty = codes "{}";
  fetch_api = λ query. invalid;
  admins = done (8 ∷ []);
  ask = fulfils;
}

-- A packet with the message.
abbrev packet : Doc
packet = object (member (codes "update_id") (number 5) (member (codes "message") ban end))

-- The first module is for photos only, the second declines.
before_it : Passed ℕ ban_event (counter 4 (pos 0) ∷ counter 6 canceled ∷ []) 0 (pos 0) 1 canceled
before_it =
    masked refl (declined (λ evt w. ok (suc w, canceled)) ((ground arith), refl) refl finished)

its_turn : Takes ℕ (counter 2 (pos 0)) ban_event (λ evt w. ok (suc w, pos 0))
its_turn = (ground arith, refl)

zero-ne_canceled : pos 0 ≢ canceled
zero-ne_canceled = ground arith

run_modules-first_example :
    run_modules ℕ
      ((counter 4 (pos 0) ∷ counter 6 canceled ∷ []) ++ counter 2 (pos 0) ∷ counter 6 (pos 1) ∷ [])
      ban_event
      0
      (pos 0)
    ≡ ok (2, pos 0)
run_modules-first_example =
    run_modules-first ℕ ban_event (counter 4 (pos 0) ∷ counter 6 canceled ∷ []) (counter 2 (pos 0))
      (counter 6 (pos 1) ∷ []) 0 (pos 0) 1 canceled (λ evt w. ok (suc w, pos 0)) 2 (pos 0) before_it
      its_turn refl zero-ne_canceled

tbl_started :
    gwbot_module_startup (List Act) (mod_tbl tree env) (false, []) ≡ ok ((true, []), pos 0)
unfolding gwbot_module_startup mod_tbl
tbl_started = refl
