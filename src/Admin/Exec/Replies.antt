-- ===== src/Admin/Exec/Replies.antt =====
-- What the bans and kicks do on an answer that is a success, and on one that is a refusal.
use gnuweeb_bot.Base.{ℕ, ◌≡◌, refl, true, false, Option, some, List, [], ◌∷◌, Bytes, codes, ok}
use gnuweeb_bot.Base.Int.{pos}
use gnuweeb_bot.Server.State.{success}
use gnuweeb_bot.Tg.Json.{JsonApi}
use gnuweeb_bot.Tg.Event.{Tgev, event, tge_get_chat_id, tge_get_msg_id, tge_get_reply_to}
use gnuweeb_bot.Tga.Admins.{found}
use gnuweeb_bot.Admin.{sban, skick, ban, kick}
use gnuweeb_bot.Admin.Exec.{
  Note, unset, described, about_deed, Call, kick_member, unban_member, delete_msg, send, Answer,
  json, answered, description, process_json_msg, send_reply, do_kick, do_unban,
}
use gnuweeb_bot.Admin.Exec.Commands.{exec_adm_cmd_ban, exec_adm_cmd_kick, kick_or_unban}
use gnuweeb_bot.Admin.Exec.Report.{exec_cmd}

module _ (api : JsonApi) where
  open api use {Json, get_ex, get_string, get_boolean}

  -- The answer says that the call has succeeded.
  pub record Good (a : Answer api) : Type 0 where
    pub obj : Json
    pub is : a ≡ json (some obj)
    pub flag : Json
    pub flag_at : found api obj (codes "ok") ≡ some flag
    pub holds : get_boolean flag ≡ true

  -- The answer refuses the call for the reason `s`.
  pub record Refused (a : Answer api) (s : Bytes) : Type 0 where
    pub obj : Json
    pub is : a ≡ json (some obj)
    pub flag : Json
    pub flag_at : found api obj (codes "ok") ≡ some flag
    pub fails : get_boolean flag ≡ false
    pub text : Json
    pub text_at : get_ex obj (codes "description") ≡ some text
    pub reason : get_string text ≡ some s

  process-Refused :
      (note : Note) (a : Answer api) (s : Bytes) (refused : Refused a s)
      → process_json_msg api note (some refused.obj) ≡ (false, described s)
  unfolding process_json_msg
  process-Refused note a s refused =
      rw
        (
          process_json_msg, refused.flag_at, refused.fails, refused.text_at, description,
          refused.reason,
        )
        refl

  answered-Refused :
      (calls : List Call) (name : Bytes) (note : Note) (a : Answer api) (s : Bytes)
      → Refused a s
      → answered api calls name note a ≡ (calls, false, described s)
  unfolding answered
  answered-Refused calls name note a s refused =
      rw (refused.is, process-Refused note a s refused) refl

  module _ (ask : List Call → Answer api) (evt r : Tgev) (target : ℕ) (reason : Option Bytes)
      (replied : tge_get_reply_to evt ≡ event r) where
    abbrev pub the_ban : Call
    the_ban = kick_member (record {
      chat_id = tge_get_chat_id evt;
      user_id = target;
      until_date = pos 0;
      revoke_msg = true;
    })

    abbrev pub the_kick : Call
    the_kick =
        unban_member
          (record { chat_id = tge_get_chat_id evt; user_id = target; only_if_banned = false })

    abbrev pub deletes : Tgev → Call
    deletes m = delete_msg (record { chat_id = tge_get_chat_id evt; message_id = tge_get_msg_id m })

    abbrev pub says : Note → Call
    says note = send (tge_get_chat_id evt) (tge_get_msg_id evt) note

    -- What the four commands do where their calls succeed; `btext` and `ktext` are the replies.
    abbrev pub Fulfilled : Bytes → Bytes → Type 0
    Fulfilled btext ktext =
        (exec_cmd api ask evt sban target reason
          ≡ ok (deletes r ∷ deletes evt ∷ the_ban ∷ [], success))
        × (exec_cmd api ask evt skick target reason
            ≡ ok (deletes r ∷ deletes evt ∷ the_kick ∷ [], success))
        × (exec_cmd api ask evt ban target reason
            ≡ ok (says (about_deed btext) ∷ the_ban ∷ [], success))
        × (exec_cmd api ask evt kick target reason
            ≡ ok (says (about_deed ktext) ∷ the_kick ∷ [], success))

    -- What a ban, a silent ban and a kick do where the API refuses them for the reason `s`.
    abbrev pub Declined : Bytes → Type 0
    Declined s =
        (exec_cmd api ask evt ban target reason ≡ ok (says (described s) ∷ the_ban ∷ [], success))
        × (exec_cmd api ask evt sban target reason
            ≡ ok (says (described s) ∷ the_ban ∷ [], success))
        × (exec_cmd api ask evt kick target reason
            ≡ ok (says (described s) ∷ the_kick ∷ [], success))

    -- Where the API refuses every call and says why, a ban, silent or not, and a kick that is not
    -- silent make one call, send the reason in reply and do nothing else.
    pub commands-Declined :
        (s : Bytes) → ((history : List Call) → Refused (ask history) s) → Declined s
    unfolding exec_cmd exec_adm_cmd_ban exec_adm_cmd_kick kick_or_unban do_kick do_unban send_reply
    commands-Declined s refused =
        let ban_run =
          answered-Refused (the_ban ∷ []) (codes "tga_kick_chat_member") unset (ask (the_ban ∷ []))
            s (refused (the_ban ∷ [])) in
        let kick_run =
          answered-Refused (the_kick ∷ []) (codes "tga_unban_chat_member") unset
            (ask (the_kick ∷ [])) s (refused (the_kick ∷ [])) in
        (rw ban_run refl, rw ban_run refl, rw kick_run refl)
