-- ===== src/Tga/Body.antt =====
-- The structs of include/gwbot/lib/tg_api/*.h, and the bodies that lib/tg_api/*.c make of them.
pub mod Fields
pub mod Send
pub mod Reads
use gnuweeb_bot.Base.{
  ℕ, ◌+◌, ◌-◌, ◌/◌, ◌^◌, Bool, true, false, Option, none, some, [], ◌∷◌, ◌++◌, leb, ◌==◌,
  if◌then◌else◌, length, strnlen, Bytes, codes, Outcome, ok, check, out_of_bounds, ◌>>=◌, ◌>>◌,
}
use gnuweeb_bot.Base.Int.{ℤ, pos, negsuc}
use gnuweeb_bot.Text.Decimal.{print_u64, print_i64}
use gnuweeb_bot.Text.UrlEncode.{urlencode}

-- `tga_delete_msg_t`
pub record DeleteMsg : Type 0 where
  pub chat_id : ℤ
  pub message_id : ℕ

-- `tga_pin_cm_t`
pub record PinMsg : Type 0 where
  pub chat_id : ℤ
  pub message_id : ℕ
  pub disable_notification : Bool

-- `tga_unpin_cm_t`
pub record UnpinMsg : Type 0 where
  pub chat_id : ℤ
  pub message_id : ℕ

-- `tga_unban_cm_t`
pub record UnbanMember : Type 0 where
  pub chat_id : ℤ
  pub user_id : ℕ
  pub only_if_banned : Bool

-- `tga_kick_cm_t`
pub record KickMember : Type 0 where
  pub chat_id : ℤ
  pub user_id : ℕ
  pub until_date : ℤ
  pub revoke_msg : Bool

-- `tga_res_perm_t`
pub record Permissions : Type 0 where
  pub can_send_messages : Bool
  pub can_send_media_messages : Bool
  pub can_send_polls : Bool
  pub can_send_other_messages : Bool
  pub can_add_web_page_previews : Bool
  pub can_change_info : Bool
  pub can_invite_users : Bool
  pub can_pin_messages : Bool

-- `tga_restrict_cm_t`
pub record RestrictMember : Type 0 where
  pub chat_id : ℤ
  pub user_id : ℕ
  pub until_date : ℤ
  pub permissions : Permissions

-- `parse_mode_t`; `other` is any other value of the field.
pub data ParseMode : Type 0 where
  off html markdown other : ParseMode

-- `tga_send_msg_t`
pub record SendMsg : Type 0 where
  pub chat_id : ℤ
  pub reply_to_msg_id : ℕ
  pub text : Bytes
  pub parse_mode : ParseMode

-- The conversion of a `time_t` to `uint64_t`.
abbrev pub to_u64 : ℤ → ℕ
to_u64 (pos n) = n
to_u64 (negsuc n) = 2 ^ 64 - 1 - n

abbrev pub is_zero : ℤ → Bool
is_zero (pos n) = n == 0
is_zero (negsuc n) = false

-- `%hhu` of a `bool`, and `true` or `false` in JSON.
abbrev pub print_bool : Bool → Bytes
print_bool b = if b then codes "1" else codes "0"

abbrev pub json_bool : Bool → Bytes
json_bool b = if b then codes "true" else codes "false"

-- A text written behind the text `p` of a buffer of `size` bytes, with `extra` bytes behind it. A
-- call of `snprintf` that cuts its text counts as an access out of bounds.
unfoldable pub put : ℕ → Bytes → Bytes → ℕ → Outcome Bytes
put size p s extra = check (leb (length p + length s + extra) size) out_of_bounds >> ok (p ++ s)

-- `"chat_id=%" PRId64`
abbrev pub chat_field : ℤ → Bytes
chat_field id = codes "chat_id=" ++ print_i64 id

unfoldable pub delete_msg_body : DeleteMsg → Outcome Bytes
unfolding put print_i64 print_u64
delete_msg_body ctx =
    put 128 [] (chat_field ctx.chat_id ++ (codes "&message_id=" ++ print_u64 ctx.message_id)) 1

unfoldable pub pin_chat_msg_body : PinMsg → Outcome Bytes
unfolding put print_i64 print_u64
pin_chat_msg_body ctx =
    put 256 []
      (chat_field ctx.chat_id
        ++ (codes "&message_id=" ++ print_u64 ctx.message_id)
        ++ (codes "&disable_notification=" ++ print_bool ctx.disable_notification))
      1

unfoldable pub unpin_chat_msg_body : UnpinMsg → Outcome Bytes
unfolding put print_i64 print_u64
unpin_chat_msg_body ctx =
    put 128 [] (chat_field ctx.chat_id ++ (codes "&message_id=" ++ print_u64 ctx.message_id)) 1

unfoldable pub unban_chat_member_body : UnbanMember → Outcome Bytes
unfolding put print_i64 print_u64
unban_chat_member_body ctx =
    put 256 []
      (chat_field ctx.chat_id
        ++ (codes "&user_id=" ++ print_u64 ctx.user_id)
        ++ (codes "&only_if_banned=" ++ print_bool ctx.only_if_banned))
      1

unfoldable pub kick_chat_member_body : KickMember → Outcome Bytes
unfolding put print_i64 print_u64
kick_chat_member_body ctx = do
  p ← put 512 [] (chat_field ctx.chat_id ++ (codes "&user_id=" ++ print_u64 ctx.user_id)) 1
  q ←
      if is_zero ctx.until_date
      then ok p
      else put 512 p (codes "&until_date=" ++ print_u64 (to_u64 ctx.until_date)) 1
  if ctx.revoke_msg then ok q else put 512 q (codes "&revoke_messages=0") 1

abbrev pub json_perms : Permissions → Bytes
json_perms perm =
    codes "\"can_send_messages\":"
    ++ json_bool perm.can_send_messages
    ++ codes ",\"can_send_media_messages\":"
    ++ json_bool perm.can_send_media_messages
    ++ codes ",\"can_send_polls\":"
    ++ json_bool perm.can_send_polls
    ++ codes ",\"can_send_other_messages\":"
    ++ json_bool perm.can_send_other_messages
    ++ codes ",\"can_add_web_page_previews\":"
    ++ json_bool perm.can_add_web_page_previews
    ++ codes ",\"can_change_info\":"
    ++ json_bool perm.can_change_info
    ++ codes ",\"can_invite_users\":"
    ++ json_bool perm.can_invite_users
    ++ codes ",\"can_pin_messages\":"
    ++ json_bool perm.can_pin_messages

unfoldable pub restrict_chat_member_body : RestrictMember → Outcome Bytes
unfolding put print_i64 print_u64
restrict_chat_member_body ctx =
    put 512 []
      (codes "{\"user_id\":"
        ++ print_u64 ctx.user_id
        ++ codes ",\"chat_id\":"
        ++ print_i64 ctx.chat_id
        ++ codes ",\"until_date\":"
        ++ print_u64 (to_u64 ctx.until_date)
        ++ codes ",\"permissions\":{"
        ++ json_perms ctx.permissions
        ++ codes "}}")
      1

unfoldable pub get_chat_admins_body : ℤ → Outcome Bytes
unfolding put print_i64
get_chat_admins_body chat_id = put 64 [] (chat_field chat_id) 1

abbrev pub send_size : ℕ
send_size = 0x6500

-- The `switch`, or `none` for the error.
abbrev pub mode_field : ParseMode → Option Bytes
mode_field off = some []
mode_field html = some (codes "&parse_mode=html")
mode_field markdown = some (codes "&parse_mode=markdown")
mode_field other = none

-- From the `switch` on.
unfoldable pub send_msg_rest : SendMsg → Bytes → Option Bytes → Outcome (Option Bytes)
unfolding put urlencode
send_msg_rest ctx p none = ok none
send_msg_rest ctx p (some mode) = do
  q ← put send_size p mode 0
  r ← put send_size q (codes "&text=") 1
  let text_len = strnlen ctx.text ((send_size - length r) / 3 - 1)
  b ← put send_size r (urlencode ctx.text text_len true) 1
  ok (some b)

-- The body, or `none` where the parse mode is invalid.
unfoldable pub send_msg_body : SendMsg → Outcome (Option Bytes)
unfolding send_msg_rest print_i64 print_u64
send_msg_body ctx = do
  p ← put send_size [] (chat_field ctx.chat_id) 1
  q ←
      if ctx.reply_to_msg_id == 0
      then ok p
      else put send_size p (codes "&reply_to_message_id=" ++ print_u64 ctx.reply_to_msg_id) 1
  send_msg_rest ctx q (mode_field ctx.parse_mode)
