-- ===== src/Text/Tests.antt =====
-- Runs of lib/string.c, and its theorems at concrete texts.
use gnuweeb_bot.Base.{
  ℕ, ◌++◌, ◌≡◌, ◌≤◌, ◌*◌, ◌+◌, ◌↔◌, refl, some, true, [], ◌∷◌, arith, Bytes, codes, ok, crash,
  out_of_bounds, replicate, length,
}
use gnuweeb_bot.Text.UrlEncode.{urlencode, url_decode, url_decode-urlencode}
use gnuweeb_bot.Text.ShellArg.{
  escapeshellarg, shell_word, shell_word-escapeshellarg, escapeshellarg_fits, worst_case, quotes,
}
use gnuweeb_bot.Text.Html.Bound.{htmlspecialchars-fits}
use gnuweeb_bot.Text.Html.{htmlspecialchars}
use gnuweeb_bot.Text.Trim.{trim, trim_cpy, trunc_str}

urlencode_raw : urlencode (codes "a b&c~") 6 true ≡ codes "a%20b%26c~"
unfolding urlencode
urlencode_raw = refl

url_decode-urlencode_example : url_decode true (urlencode (codes "a b&c~") 6 true) ≡ codes "a b&c~"
url_decode-urlencode_example = url_decode-urlencode (codes "a b&c~") 6 true (omega arith)

quoted : (escapeshellarg (codes "it's") 4).0 ≡ codes "'it'\\''s'"
unfolding escapeshellarg
quoted = refl

shell_word-escapeshellarg_example :
    shell_word (escapeshellarg (codes "it's; rm") 8).0 ≡ some (codes "it's; rm")
shell_word-escapeshellarg_example = shell_word-escapeshellarg (codes "it's; rm") 8

escapeshellarg_fits_example :
    ((escapeshellarg (codes "'") 1).1 + 1 ≤ worst_case 1) ↔ (3 * quotes (codes "'") + 2 ≤ 3 * 1)
escapeshellarg_fits_example = escapeshellarg_fits (codes "'") 1 refl

abbrev buffer : Bytes
buffer = replicate 9 b'?'

html_run : htmlspecialchars buffer 9 (codes "a<b") 3 ≡ ok (codes "a&lt;b?" ++ 0 ∷ b'?' ∷ [], 7)
unfolding htmlspecialchars
html_run = refl

-- A byte that is copied and one that no longer fits: the write goes below the buffer.
html_underflow : htmlspecialchars (b'?' ∷ []) 1 (codes "a<") 2 ≡ crash out_of_bounds
unfolding htmlspecialchars
html_underflow = refl

htmlspecialchars-fits_example :
    (out' : Bytes) × (ret : ℕ) × (htmlspecialchars buffer 6 (codes "a&lt&lt") 7 ≡ ok (out', ret))
    × (length out' ≡ length buffer)
    × (1 ≤ ret)
    × (ret ≤ 6 + 1)
htmlspecialchars-fits_example =
    htmlspecialchars-fits buffer 6 (codes "a&lt&lt") 7 (omega arith) (omega arith) (omega arith)

trim_run : trim (codes " ab  " ++ 0 ∷ []) ≡ (codes " ab" ++ 0 ∷ b' ' ∷ 0 ∷ [], 1, 2)
unfolding trim
trim_run = refl

trim_cpy_run : trim_cpy (codes " ab " ++ 0 ∷ []) ≡ (codes "ab" ++ 0 ∷ b' ' ∷ 0 ∷ [], 2)
unfolding trim_cpy
trim_cpy_run = refl

-- Without a blank in front the copying variant leaves the blanks at the end.
trim_cpy_kept : trim_cpy (codes "ab " ++ 0 ∷ []) ≡ (codes "ab " ++ 0 ∷ [], 2)
unfolding trim_cpy
trim_cpy_kept = refl

trunc_run : trunc_str (codes "abcd" ++ 0 ∷ []) 2 ≡ codes "ab" ++ 0 ∷ b'd' ∷ 0 ∷ []
unfolding trunc_str
trunc_run = refl
