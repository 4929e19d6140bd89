-- ===== src/Admin/Exec/Commands.antt =====
-- The commands of the administration module (modules/003_admin/admin.c): the calls of the Telegram API
-- that each makes, in their order.
use gnuweeb_bot.Base.{
  ℕ, Bool, true, false, not, Option, List, [], ◌++◌, ◌==◌, if◌then◌else◌, Bytes, codes, Outcome, ok,
  crash, out_of_bounds, ◌>>=◌,
}
use gnuweeb_bot.Base.Int.{ℤ, pos}
use gnuweeb_bot.Server.State.{Ret, success, fail}
use gnuweeb_bot.Text.Decimal.{print_u64}
use gnuweeb_bot.Tg.Json.{JsonApi}
use gnuweeb_bot.Tg.Event.{
  Tgev, nothing, wild, event, tge_get_chat_id, tge_get_msg_id, tge_get_reply_to, tge_get_from,
}
use gnuweeb_bot.Tga.Body.{KickMember, UnbanMember, RestrictMember, DeleteMsg}
use gnuweeb_bot.Admin.Exec.{
  Note, unset, literal, about_deed, Call, Ran, Answer, send_reply, do_kick, do_unban, do_mute,
  do_pin, do_unpin, do_del_msg,
}
use gnuweeb_bot.Admin.Exec.Deeds.{Deed, banned, unbanned, kicked, muted, unmuted, deed_text}

abbrev is_success : Ret → Bool
is_success success = true
is_success (fail e) = false

-- `ask` answers a call, behind those made before.
module _ (api : JsonApi) (ask : List Call → Answer api) (evt : Tgev) where
  abbrev pub this_chat : ℤ
  this_chat = tge_get_chat_id evt

  abbrev pub this_msg : ℕ
  this_msg = tge_get_msg_id evt

  abbrev pub in_chat : ℕ → DeleteMsg
  in_chat id = record { chat_id = this_chat; message_id = id }

  -- The reply about a deed where the message replies to another.
  unfoldable pub reply_deed : List Call → Note → Deed → Option Bytes → Ran
  unfolding send_reply deed_text tge_get_reply_to tge_get_from tge_get_msg_id
  reply_deed calls note deed reason = elim (tge_get_reply_to evt) [
    | nothing ↦ send_reply evt calls note this_msg
    | wild ↦ crash out_of_bounds
    | event r ↦ deed_text deed (tge_get_from r) reason >>= λ text.
        send_reply evt calls (about_deed text) this_msg
  ]

  -- The message of the command and the one replied to are deleted.
  unfoldable pub delete_both : List Call → Note → Ran
  unfolding do_del_msg send_reply tge_get_reply_to tge_get_msg_id
  delete_both calls note =
      let (calls₁, ok₁, note₁) = do_del_msg api ask calls note (in_chat this_msg) in
      if not ok₁ then send_reply evt calls₁ note₁ this_msg else elim (tge_get_reply_to evt) [
        | nothing ↦ ok (calls₁, success)
        | wild ↦ crash out_of_bounds
        | event r ↦
            let (calls₂, ok₂, note₂) =
              do_del_msg api ask calls₁ note₁ (in_chat (tge_get_msg_id r)) in
            if ok₂ then ok (calls₂, success) else send_reply evt calls₂ note₂ this_msg
      ]

  unfoldable pub exec_adm_cmd_ban : ℕ → Option Bytes → Bool → Ran
  unfolding do_kick delete_both reply_deed send_reply
  exec_adm_cmd_ban target reason silent =
      let arg : KickMember = record {
        chat_id = this_chat;
        user_id = target;
        until_date = pos 0;
        revoke_msg = true;
      } in
      let (calls, good, note) = do_kick api ask [] unset arg in
      if not good
      then send_reply evt calls note this_msg
      else if silent
      then delete_both calls note
      else reply_deed calls note banned reason

  unfoldable pub kick_or_unban : ℕ → Option Bytes → Bool → Bool → Ran
  unfolding do_unban reply_deed send_reply
  kick_or_unban target reason is_unban silent =
      let arg : UnbanMember = record {
        chat_id = this_chat;
        user_id = target;
        only_if_banned = is_unban;
      } in
      let (calls, good, note) = do_unban api ask [] unset arg in
      if not good
      then send_reply evt calls note this_msg
      else if silent
      then ok (calls, success)
      else reply_deed calls note (if is_unban then unbanned else kicked) reason

  unfoldable pub mute_or_unmute : ℕ → Option Bytes → Bool → Ran
  unfolding do_mute reply_deed send_reply
  mute_or_unmute target reason is_unmute =
      let arg : RestrictMember = record {
        chat_id = this_chat;
        user_id = target;
        until_date = pos 0;
        permissions = record {
          can_send_messages = is_unmute;
          can_send_media_messages = is_unmute;
          can_send_polls = is_unmute;
          can_send_other_messages = is_unmute;
          can_add_web_page_previews = is_unmute;
          can_change_info = is_unmute;
          can_invite_users = is_unmute;
          can_pin_messages = is_unmute;
        };
      } in
      let (calls, good, note) = do_mute api ask [] unset arg in
      if not good
      then send_reply evt calls note this_msg
      else reply_deed calls note (if is_unmute then unmuted else muted) reason

  unfoldable pub exec_adm_cmd_unban : ℕ → Option Bytes → Ran
  unfolding kick_or_unban
  exec_adm_cmd_unban target reason = kick_or_unban target reason true false

  -- `kick_or_unban` returns 0 for a kick that has failed as well.
  unfoldable pub exec_adm_cmd_kick : ℕ → Option Bytes → Bool → Ran
  unfolding kick_or_unban delete_both
  exec_adm_cmd_kick target reason silent = do
    (calls, ret) ← kick_or_unban target reason false silent
    if not (is_success ret)
        then ok (calls, ret)
        else if silent
        then delete_both calls unset
        else ok (calls, ret)

  unfoldable pub exec_adm_cmd_mute : ℕ → Option Bytes → Ran
  unfolding mute_or_unmute
  exec_adm_cmd_mute target reason = mute_or_unmute target reason false

  unfoldable pub exec_adm_cmd_unmute : ℕ → Option Bytes → Ran
  unfolding mute_or_unmute
  exec_adm_cmd_unmute target reason = mute_or_unmute target reason true

  -- `tge_get_msg_id(reply_to)`
  unfoldable pub replied_id : Outcome ℕ
  unfolding tge_get_reply_to tge_get_msg_id
  replied_id = elim (tge_get_reply_to evt) [
    | nothing ↦ crash out_of_bounds
    | wild ↦ crash out_of_bounds
    | event r ↦ ok (tge_get_msg_id r)
  ]

  abbrev pub numbered : ℕ → Bytes → Note
  numbered id s = literal (codes "Message " ++ print_u64 id ++ s)

  -- At the id of the message replied to.
  unfoldable pub pin_at : ℕ → Ran
  unfolding do_pin send_reply print_u64
  pin_at id =
      let (calls, good, note) =
        do_pin api ask [] unset
          (record { chat_id = this_chat; message_id = id; disable_notification = false }) in
      if id == 0
      then send_reply evt [] (literal (codes "Please reply to message to be pinned!")) this_msg
      else if good
      then send_reply evt calls (numbered id (codes " has been pinned!")) this_msg
      else send_reply evt calls note this_msg

  unfoldable pub exec_adm_cmd_pin : Ran
  unfolding replied_id pin_at
  exec_adm_cmd_pin = replied_id >>= pin_at

  -- At the id of the message replied to.
  unfoldable pub unpin_at : ℕ → Ran
  unfolding do_unpin send_reply print_u64
  unpin_at id =
      let (calls, good, note) =
        do_unpin api ask [] unset (record { chat_id = this_chat; message_id = id }) in
      if id == 0
      then send_reply evt [] (literal (codes "Please reply to message to be unpinned!")) this_msg
      else if good
      then send_reply evt calls (numbered id (codes " has been unpinned!")) this_msg
      else send_reply evt calls note this_msg

  unfoldable pub exec_adm_cmd_unpin : Ran
  unfolding replied_id unpin_at
  exec_adm_cmd_unpin = replied_id >>= unpin_at

  -- At the id of the message replied to.
  unfoldable pub delete_at : ℕ → Ran
  unfolding do_del_msg send_reply print_u64
  delete_at id =
      let (calls₁, ok₁, note₁) = do_del_msg api ask [] unset (in_chat id) in
      let (calls₂, ok₂, note₂) = do_del_msg api ask calls₁ note₁ (in_chat this_msg) in
      if id == 0
      then send_reply evt [] (literal (codes "Please reply to message to be unpinned!")) this_msg
      else if not ok₁
      then send_reply evt calls₁ note₁ this_msg
      else if ok₂
      then send_reply evt calls₂ (numbered id (codes " has been deleted!")) this_msg
      else send_reply evt calls₂ note₂ this_msg

  unfoldable pub exec_adm_cmd_delete : Ran
  unfolding replied_id delete_at
  exec_adm_cmd_delete = replied_id >>= delete_at
