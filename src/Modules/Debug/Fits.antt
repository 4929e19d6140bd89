-- ===== src/Modules/Debug/Fits.antt =====
-- The answer of the debug module fits in its buffer.
use gnuweeb_bot.Base.{◌+◌, ◌-◌, ◌≡◌, refl, Bytes, length, strnlen, le→leb, ok, arith}
use gnuweeb_bot.Text.Html.Bound.{htmlspecialchars-fits}
use gnuweeb_bot.Modules.Debug.{reply_size, hlen, debug_text}

-- Whatever json-c prints, the text is made inside of the 36864 bytes of `reply_text`.
pub debug_text-fits :
    (page pretty : Bytes)
    → length page ≡ reply_size - 5
    → (reply : Bytes) × (debug_text page pretty ≡ ok reply)
unfolding debug_text
debug_text-fits page pretty size =
    let (out, ret, run, same, low, high) =
      htmlspecialchars-fits page hlen pretty (strnlen pretty hlen) (omega arith) (omega arith)
        (omega arith) in
    rw (run, le→leb (5 + (ret - 1) + 7) reply_size (omega arith)) (_, refl)
