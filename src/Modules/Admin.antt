-- ===== src/Modules/Admin.antt =====
-- The event as the administration module reads it (the entry of modules/003_admin/admin.c).
use gnuweeb_bot.Base.{
  ℕ, Bool, false, ◌&&◌, ◌||◌, Option, none, some, map, Bytes, drop, ◌==◌, ok, crash, out_of_bounds,
  if◌then◌else◌,
}
use gnuweeb_bot.Base.Int.{ℤ, pos}
use gnuweeb_bot.Server.State.{Ret, success, fail}
use gnuweeb_bot.Admin.{Message, AdminEnv, Cmd, Result, entry, find_cmd, is_sigil, head_byte, is_ws}
use gnuweeb_bot.Tg.Event.{
  Tgev, Pointer, nothing, wild, event, tge_get_text, tge_get_user_id, tge_get_reply_to,
}
use gnuweeb_bot.Modules.{admin, Done, minus}

abbrev pub message_of : Tgev → Option ℕ → Message
message_of evt target = record {
  text = tge_get_text evt;
  user_id = tge_get_user_id evt;
  reply_to = target;
}

-- Whether the entry reads the user behind a pointer that is not NULL: behind the name of a command
-- the text ends, or white space follows.
abbrev pub names_target : Option (Cmd × Bytes) → Bool
names_target none = false
names_target (some found) = head_byte found.1 == 0 || is_ws (head_byte found.1)

abbrev pub reads_reply : Option Bytes → Bool
reads_reply none = false
reads_reply (some tx) = is_sigil (head_byte tx) && names_target (find_cmd (drop 1 tx))

abbrev pub int_of : Ret → ℤ
int_of success = pos 0
int_of (fail e) = minus e

abbrev pub acts_of : Result → Done
acts_of (ok (effects, ret)) = ok (map admin effects, int_of ret)
acts_of (crash x) = crash x

-- At what `tge_get_reply_to` has returned.
unfoldable pub admin_at : AdminEnv → Tgev → Pointer → Done
unfolding entry
admin_at env evt nothing = acts_of (entry env (message_of evt none))
admin_at env evt (event r) = acts_of (entry env (message_of evt (some (tge_get_user_id r))))
admin_at env evt wild =
    if reads_reply (tge_get_text evt)
    then crash out_of_bounds
    else acts_of (entry env (message_of evt none))

unfoldable pub admin_entry : AdminEnv → Tgev → Done
unfolding admin_at tge_get_reply_to
admin_entry env evt = admin_at env evt (tge_get_reply_to evt)
