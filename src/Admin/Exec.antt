-- ===== src/Admin/Exec.antt =====
-- How the commands of the administration module call the Telegram API (modules/003_admin/admin.c), and
-- what they make of its answers.
pub mod Deeds
pub mod Commands
pub mod Report
pub mod Confined
pub mod Replies
mod Tests
use gnuweeb_bot.Base.{
  ℕ, Bool, true, false, not, Option, none, some, List, [], ◌∷◌, ◌++◌, ◌==◌, if◌then◌else◌, Bytes,
  codes, Outcome, ok, crash, out_of_bounds, aborted, ◌>>=◌,
}
use gnuweeb_bot.Base.Int.{ℤ, pos}
use gnuweeb_bot.Server.State.{Ret, success, fail, done, failed}
use gnuweeb_bot.Text.Decimal.{print_u64}
use gnuweeb_bot.Tg.Json.{JsonApi}
use gnuweeb_bot.Tg.Event.{
  Tgev, From, Pointer, nothing, wild, event, tge_get_chat_id, tge_get_msg_id, tge_get_reply_to,
  tge_get_from,
}
use gnuweeb_bot.Tga.Body.{KickMember, UnbanMember, RestrictMember, PinMsg, UnpinMsg, DeleteMsg}
use gnuweeb_bot.Tga.Admins.{found, ChatMember, parse_tga_admins}
use gnuweeb_bot.Admin.{
  Cmd, nop, ban, sban, unban, kick, skick, warn, mute, tmute, unmute, pin, unpin, delete, report,
  delvote, ecanceled,
}

-- What `reply_text` holds: nothing that was written, the error of a call by its name and errno, a
-- literal or printed text, `Error: ` and a text of the API, the text about a deed, or that of a
-- report.
pub data Note : Type 0 where
  unset : Note
  call_failed : Bytes → ℕ → Note
  literal : Bytes → Note
  described : Bytes → Note
  about_deed : Bytes → Note
  reported : Bytes → Note

-- A call of the API; `send` is that of `send_reply`, with the chat and the message replied to.
pub data Call : Type 0 where
  kick_member : KickMember → Call
  unban_member : UnbanMember → Call
  restrict_member : RestrictMember → Call
  pin_msg : PinMsg → Call
  unpin_msg : UnpinMsg → Call
  delete_msg : DeleteMsg → Call
  get_admins : ℤ → Call
  send : ℤ → ℕ → Note → Call

-- What a command does and returns.
abbrev pub Ran : Type 0
Ran = Outcome (List Call × Ret)

-- What `tga_send_msg` returns is ignored.
unfoldable pub send_reply : Tgev → List Call → Note → ℕ → Ran
unfolding tge_get_chat_id
send_reply evt calls note msg_id = ok (send (tge_get_chat_id evt) msg_id note ∷ calls, success)

module _ (api : JsonApi) where
  open api use {Json, get_ex, get_string, get_boolean}

  -- What a call brings: the errno that it returns, or what `json_tokener_parse` makes of the answer.
  pub data Answer : Type 0 where
    errno : ℕ → Answer
    json : Option Json → Answer

  abbrev pub err_parse : Bytes
  err_parse = codes "Error: Cannot parse JSON response from API"

  abbrev pub description : Option Json → Note
  description none = literal err_parse
  description (some d) = elim (get_string d) [ none ↦ literal err_parse | some s ↦ described s ]

  -- Whether the answer is a success, and `reply_text`.
  unfoldable pub process_json_msg : Note → Option Json → Bool × Note
  unfolding found
  process_json_msg note none = (false, literal err_parse)
  process_json_msg note (some j) = elim (found api j (codes "ok")) [
    | none ↦ (false, literal (codes "Cannot find \"ok\" key from JSON API"))
    | some b ↦
        if get_boolean b
        then (true, note)
        else (false, description (get_ex j (codes "description")))
  ]

  -- The calls so far, the last first; whether to go on; and `reply_text`.
  abbrev pub Tried : Type 0
  Tried = List Call × Bool × Note

  -- A failed call leaves `ok` as it is.
  unfoldable pub answered : List Call → Bytes → Note → Answer → Tried
  unfolding process_json_msg
  answered calls name note (errno e) = (calls, true, call_failed name e)
  answered calls name note (json j) =
      let (good, note') = process_json_msg note j in (calls, good, note')

  -- `ask` answers a call, behind those made before.
  module _ (ask : List Call → Answer) where
    unfoldable pub do_kick : List Call → Note → KickMember → Tried
    unfolding answered
    do_kick calls note arg =
        let calls' = kick_member arg ∷ calls in
        answered calls' (codes "tga_kick_chat_member") note (ask calls')

    unfoldable pub do_unban : List Call → Note → UnbanMember → Tried
    unfolding answered
    do_unban calls note arg =
        let calls' = unban_member arg ∷ calls in
        answered calls' (codes "tga_unban_chat_member") note (ask calls')

    unfoldable pub do_mute : List Call → Note → RestrictMember → Tried
    unfolding answered
    do_mute calls note arg =
        let calls' = restrict_member arg ∷ calls in
        answered calls' (codes "tga_restrict_chat_member") note (ask calls')

    unfoldable pub do_pin : List Call → Note → PinMsg → Tried
    unfolding answered
    do_pin calls note arg =
        let calls' = pin_msg arg ∷ calls in
        answered calls' (codes "tga_pin_chat_msg") note (ask calls')

    unfoldable pub do_unpin : List Call → Note → UnpinMsg → Tried
    unfolding answered
    do_unpin calls note arg =
        let calls' = unpin_msg arg ∷ calls in
        answered calls' (codes "tga_unpin_chat_msg") note (ask calls')

    unfoldable pub do_del_msg : List Call → Note → DeleteMsg → Tried
    unfolding answered
    do_del_msg calls note arg =
        let calls' = delete_msg arg ∷ calls in
        answered calls' (codes "tga_delete_msg") note (ask calls')
