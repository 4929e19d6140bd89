-- ===== src/Tga/Calls.antt =====
-- The calls of the Telegram API (lib/tg_api/*.c): each makes its body and posts it under the name of
-- its method.
use gnuweeb_bot.Base.{none, some, Bytes, codes, Outcome, ok, ◌>>=◌}
use gnuweeb_bot.Base.Int.{ℤ}
use gnuweeb_bot.Server.State.{fail, einval}
use gnuweeb_bot.Tga.Post.{Handle, app_json, Curl, Posted, tg_api_post}
use gnuweeb_bot.Tga.Body.{
  DeleteMsg, PinMsg, UnpinMsg, UnbanMember, KickMember, RestrictMember, SendMsg, delete_msg_body,
  pin_chat_msg_body, unpin_chat_msg_body, unban_chat_member_body, kick_chat_member_body,
  restrict_chat_member_body, get_chat_admins_body, send_msg_body,
}

-- `tga_set_body` and `tga_set_method`
abbrev pub set_request : Handle → Bytes → Bytes → Handle
set_request h method body = record h { method = some method; body = some body }

module _ (curl : Curl) (h : Handle) where
  unfoldable pub tga_delete_msg : DeleteMsg → Outcome Posted
  unfolding delete_msg_body tg_api_post
  tga_delete_msg ctx = do
    body ← delete_msg_body ctx
    tg_api_post curl (set_request h (codes "deleteMessage") body)

  unfoldable pub tga_pin_chat_msg : PinMsg → Outcome Posted
  unfolding pin_chat_msg_body tg_api_post
  tga_pin_chat_msg ctx = do
    body ← pin_chat_msg_body ctx
    tg_api_post curl (set_request h (codes "pinChatMessage") body)

  unfoldable pub tga_unpin_chat_msg : UnpinMsg → Outcome Posted
  unfolding unpin_chat_msg_body tg_api_post
  tga_unpin_chat_msg ctx = do
    body ← unpin_chat_msg_body ctx
    tg_api_post curl (set_request h (codes "unpinChatMessage") body)

  unfoldable pub tga_unban_chat_member : UnbanMember → Outcome Posted
  unfolding unban_chat_member_body tg_api_post
  tga_unban_chat_member ctx = do
    body ← unban_chat_member_body ctx
    tg_api_post curl (set_request h (codes "unbanChatMember") body)

  unfoldable pub tga_kick_chat_member : KickMember → Outcome Posted
  unfolding kick_chat_member_body tg_api_post
  tga_kick_chat_member ctx = do
    body ← kick_chat_member_body ctx
    tg_api_post curl (set_request h (codes "kickChatMember") body)

  unfoldable pub tga_restrict_chat_member : RestrictMember → Outcome Posted
  unfolding restrict_chat_member_body tg_api_post
  tga_restrict_chat_member ctx = do
    body ← restrict_chat_member_body ctx
    tg_api_post curl
        (set_request (record h { content_type = app_json }) (codes "restrictChatMember") body)

  unfoldable pub tga_get_chat_admins : ℤ → Outcome Posted
  unfolding get_chat_admins_body tg_api_post
  tga_get_chat_admins chat_id = do
    body ← get_chat_admins_body chat_id
    tg_api_post curl (set_request h (codes "getChatAdministrators") body)

  unfoldable pub tga_send_msg : SendMsg → Outcome Posted
  unfolding send_msg_body tg_api_post
  tga_send_msg ctx = do
    body ← send_msg_body ctx
    elim body [
      | none ↦ ok (h, fail einval, none)
      | some text ↦ tg_api_post curl (set_request h (codes "sendMessage") text)
    ]
