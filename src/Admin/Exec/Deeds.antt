-- ===== src/Admin/Exec/Deeds.antt =====
-- The text of a reply about what has been done to a member, in the buffer `reply_text`
-- (modules/003_admin/admin.c), with its bounds.
use gnuweeb_bot.Base.{
  ℕ, ◌+◌, ◌-◌, ◌%◌, ◌^◌, Option, none, some, [], ◌∷◌, ◌++◌, ltb, leb, ◌==◌, if◌then◌else◌, Bytes,
  codes, Outcome, ok, crash, out_of_bounds, check, ◌>>=◌, ◌>>◌, take, drop, length, replicate,
  strnlen, c_text,
}
use gnuweeb_bot.Text.Decimal.{print_u64}
use gnuweeb_bot.Text.Html.{htmlspecialchars}
use gnuweeb_bot.Tg.Event.{From}

-- What has been done, in the words of the reply.
pub data Deed : Type 0 where
  banned unbanned kicked muted unmuted : Deed

-- RTB_SIZE
abbrev pub rtb_size : ℕ
rtb_size = 0x400

-- Subtraction of `size_t`.
abbrev pub minus_size : ℕ → ℕ → ℕ
minus_size a b = (a + 2 ^ 64 - b) % 2 ^ 64

-- `memcpy` of the bytes to an offset of the buffer.
unfoldable pub put : Bytes → ℕ → Bytes → Outcome Bytes
put buf at bytes =
    check (leb (at + length bytes) (length buf)) out_of_bounds
    >> ok (take at buf ++ bytes ++ drop (at + length bytes) buf)

-- `htmlspecialchars(buf + at, sps, s, len)`
unfoldable pub put_html : Bytes → ℕ → ℕ → Bytes → ℕ → Outcome (Bytes × ℕ)
unfolding htmlspecialchars
put_html buf at sps s len = do
  (out, n) ← htmlspecialchars (drop at buf) sps s len
  ok (take at buf ++ out, n)

-- `snprintf(buf + at, sps, ...)` of the text.
unfoldable pub put_print : Bytes → ℕ → ℕ → Bytes → Outcome Bytes
unfolding put
put_print buf at sps s = if sps == 0 then ok buf else put buf at (take (sps - 1) s ++ 0 ∷ [])

-- The beginning of a link to a user.
unfoldable pub link_head : ℕ → Bytes
unfolding print_u64
link_head id = codes "<a href=\"tg://user?id=" ++ print_u64 id ++ codes "\">"

-- The last name, behind the first; the buffer and `ret`.
unfoldable pub put_last : Bytes → ℕ → ℕ → Option Bytes → Outcome (Bytes × ℕ)
unfolding put put_html
put_last buf ret sps none = ok (buf, ret)
put_last buf ret sps (some last) = do
  buf₁ ← put buf ret (b' ' ∷ [])
  (buf₂, tmp) ← put_html buf₁ (ret + 1) sps last (strnlen last 0xfff)
  ok (buf₂, ret + 1 + tmp - 1)

-- The buffer, and the length of the link; a name that is NULL is read.
unfoldable pub gen_name_link : Bytes → ℕ → ℕ → Option Bytes → Option Bytes → Outcome (Bytes × ℕ)
unfolding put put_print put_html put_last link_head
gen_name_link buf sps id none last = if ltb sps 32 then ok (buf, 0) else crash out_of_bounds
gen_name_link buf sps id (some first) last =
    let head = link_head id in
    let ret = length head in
    let sps₁ = minus_size (sps - 5) ret in
    if ltb sps 32 then ok (buf, 0) else (do
      buf₁ ← put_print buf 0 (sps - 5) head
      (buf₂, tmp) ← put_html buf₁ ret sps₁ first (strnlen first 0xfff)
      (buf₃, ret₃) ← put_last buf₂ (ret + tmp - 1) ((sps₁ + tmp) % 2 ^ 64) last
      buf₄ ← put buf₃ ret₃ (codes "</a>" ++ 0 ∷ [])
      ok (buf₄, ret₃ + 4))

abbrev pub word_of : Deed → Bytes
word_of banned = codes "banned!"
word_of unbanned = codes "unbanned!"
word_of kicked = codes "kicked!"
word_of muted = codes "muted!"
word_of unmuted = codes "unmuted!"

-- The reason, behind the text so far.
unfoldable pub put_reason : Bytes → ℕ → ℕ → Option Bytes → Outcome Bytes
unfolding put put_html
put_reason buf at sps none = ok buf
put_reason buf at sps (some reason) = do
  buf₁ ← put buf at (codes "\n<b>Message:</b> " ++ 0 ∷ [])
  (buf₂, n) ←
      put_html buf₁ (at + 17) (minus_size sps 18) reason (strnlen reason (minus_size sps 18))
  put buf₂ (at + 17 + n - 1) (0 ∷ [])

-- The text that is sent: what `reply_text` holds up to its 0. What the buffer held before stands
-- behind the 0 only, so it begins with zeros here.
unfoldable pub deed_text : Deed → From → Option Bytes → Outcome Bytes
unfolding put gen_name_link put_reason
deed_text deed fr reason = do
  (buf₁, at) ← gen_name_link (replicate rtb_size 0) (rtb_size - 18) fr.id fr.first_name fr.last_name
  let said = codes " has been " ++ word_of deed
  buf₂ ← put buf₁ at (said ++ 0 ∷ [])
  buf₃ ← put_reason buf₂ (at + length said) (minus_size (rtb_size - 18) at) reason
  ok (c_text buf₃)
