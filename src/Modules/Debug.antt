-- ===== src/Modules/Debug.antt =====
-- modules/000_debug/debug.c and modules/001_standard/standard.c
pub mod Fits
use gnuweeb_bot.Base.{
  ℕ, ◌+◌, ◌-◌, ◌/◌, Option, none, some, List, [], ◌∷◌, ◌++◌, Bytes, codes, has_prefix, take,
  strnlen, Outcome, ok, ◌>>=◌, ◌>>◌, if◌then◌else◌, length, check, leb, out_of_bounds, get_or, drop,
}
use gnuweeb_bot.Base.Int.{ℤ, pos}
use gnuweeb_bot.Text.Html.{htmlspecialchars, blit}
use gnuweeb_bot.Tg.Event.{Tgev, tge_get_text, tge_get_chat_id, tge_get_msg_id}
use gnuweeb_bot.Modules.{Act, send_msg, html, Done, canceled}

-- sizeof(reply_text), and what is left of it for a text whose characters may grow to six each.
abbrev pub reply_size : ℕ
reply_size = 36864

abbrev pub hlen : ℕ
hlen = (reply_size - 6 - 7) / 6

-- The buffer that is sent: `page` is what stands in the object behind "<pre>" before the call.
unfoldable pub debug_text : Bytes → Bytes → Outcome Bytes
unfolding htmlspecialchars
debug_text page pretty = do
  written ← htmlspecialchars page hlen pretty (strnlen pretty hlen)
  check (leb (5 + (written.1 - 1) + 7) reply_size) out_of_bounds
  ok (codes "<pre>" ++ take (written.1 - 1) written.0 ++ codes "</pre>")

unfoldable pub debug_entry_text : Bytes → Bytes → Tgev → Option Bytes → Done
unfolding debug_text
debug_entry_text page pretty evt none = ok ([], canceled)
debug_entry_text page pretty evt (some tx) =
    if has_prefix (codes "/debug") tx
    then (do
      reply ← debug_text page pretty
      ok (send_msg html (tge_get_chat_id evt) (tge_get_msg_id evt) reply ∷ [], pos 0))
    else ok ([], canceled)

-- `pretty` is json-c's text of the packet.
unfoldable pub debug_entry : Bytes → Bytes → Tgev → Done
unfolding debug_entry_text tge_get_text
debug_entry page pretty evt = debug_entry_text page pretty evt (tge_get_text evt)

unfoldable pub standard_entry : Tgev → Done
standard_entry evt = ok ([], canceled)
