-- ===== src/Text/UrlEncode.antt =====
-- `urlencode` of lib/string.c, against the percent decoding of RFC 3986.
use gnuweeb_bot.Base.{
  ℕ, zero, suc, ◌+◌, ◌-◌, ◌*◌, ◌/◌, ◌%◌, ◌≤◌, ◌<◌, ◌≡◌, refl, Bool, true, false, not, ◌&&◌, ◌||◌,
  List, [], ◌∷◌, ◌++◌, arith, ltb, leb, ◌==◌, ==_iff, if◌then◌else◌, take, get_or, length,
  length-append, All, All-append, Bytes, codes, IsByte,
}
use native.Mathlib.Decide.{ℕ_discrete}

abbrev hexchars : Bytes
hexchars = codes "0123456789ABCDEF"

-- The test under which a byte is written as `%XX`.
pub is_escaped : Bool → ℕ → Bool
is_escaped raw c =
    (ltb c b'0' && not (c == b'-') && not (c == b'.'))
    || (ltb c b'A' && ltb b'9' c)
    || (ltb b'Z' c && ltb c b'a' && not (c == b'_'))
    || (ltb b'z' c && (not raw || not (c == b'~')))

-- What one round of the loop writes.
pub encode_byte : Bool → ℕ → Bytes
encode_byte raw c =
    if not raw && c == b' '
    then b'+' ∷ []
    else if is_escaped raw c
    then b'%' ∷ get_or hexchars (c / 16) 0 ∷ get_or hexchars (c % 16) 0 ∷ []
    else c ∷ []

encode_all : Bool → Bytes → Bytes
unfolding encode_byte is_escaped
encode_all raw [] = []
encode_all raw (c ∷ s) = encode_byte raw c ++ encode_all raw s

-- The text that is written, without the 0 behind it.
unfoldable pub urlencode : Bytes → ℕ → Bool → Bytes
unfolding encode_all
urlencode s len raw = encode_all raw (take len s)

-- Percent decoding: between characters, behind `%`, and behind `%` and the digit `h`.
pub data Mode : Type 0 where
  plain percent : Mode
  high : ℕ → Mode

digit_value : ℕ → ℕ
digit_value c = if leb c b'9' then c - b'0' else c - b'A' + 10

-- `raw` keeps `+`; a form's decoding turns it into a space.
decode_from : Bool → Mode → Bytes → Bytes
decode_from raw m [] = []
decode_from raw plain (c ∷ s) =
    let escape = decode_from raw percent s in
    let rest = decode_from raw plain s in
    if c == b'%' then escape else (if not raw && c == b'+' then b' ' else c) ∷ rest
decode_from raw percent (c ∷ s) = decode_from raw (high (digit_value c)) s
decode_from raw (high h) (c ∷ s) = (h * 16 + digit_value c) ∷ decode_from raw plain s

pub url_decode : Bool → Bytes → Bytes
unfolding decode_from digit_value
url_decode raw s = decode_from raw plain s

and_left : (a b : Bool) → (a && b) ≡ true → a ≡ true
and_left a b h = ground arith

and_right : (a b : Bool) → (a && b) ≡ true → b ≡ true
and_right a b h = ground arith

-- A test passes at `k` and the numbers above it, `n` of them; checked by evaluation.
passes_from : (ℕ → Bool) → ℕ → ℕ → Bool
passes_from test k zero = true
passes_from test k (suc n) = if test k then passes_from test (k + 1) n else false

passes_from_lem :
    (test : ℕ → Bool) (c k n : ℕ) → passes_from test k n ≡ true → k ≤ c → c < k + n → test c ≡ true
unfolding passes_from
passes_from_lem test c k zero h lo hi = absurd (omega arith)
passes_from_lem test c k (suc n) h lo hi = elim (ℕ_discrete k c) [
  | yes here ↦ ground arith
  | no further ↦ ground (arith, passes_from_lem test c (k + 1) n)
]

digits_table : passes_from (λ n. digit_value (get_or hexchars n 0) == n) 0 16 ≡ true
unfolding passes_from digit_value
digits_table = refl

digit_value-hexchars : (n : ℕ) → n < 16 → digit_value (get_or hexchars n 0) ≡ n
digit_value-hexchars n h =
    (==_iff _ n).0 (passes_from_lem _ n 0 16 digits_table (omega arith) (omega arith))

decode-encode_byte :
    (raw : Bool) (c : ℕ) (rest : Bytes)
    → IsByte c
    → decode_from raw plain (encode_byte raw c ++ rest) ≡ c ∷ decode_from raw plain rest
unfolding decode_from encode_byte is_escaped
decode-encode_byte raw c rest h =
    ground (arith, digit_value-hexchars (c / 16), digit_value-hexchars (c % 16))

decode-encode_all :
    (raw : Bool) (s : Bytes) → All IsByte s → decode_from raw plain (encode_all raw s) ≡ s
unfolding encode_all
decode-encode_all raw [] h = unfold decode_from in refl
decode-encode_all raw (c ∷ s) h =
    rw (decode-encode_byte raw c (encode_all raw s) h.0, decode-encode_all raw s h.1)

-- Percent decoding gives back the first `len` bytes of any text of bytes, in the raw form and in
-- the form where a space is written as `+`.
pub url_decode-urlencode :
    (s : Bytes) (len : ℕ) (raw : Bool)
    → All IsByte (take len s)
    → url_decode raw (urlencode s len raw) ≡ take len s
unfolding url_decode urlencode
url_decode-urlencode s len raw h = decode-encode_all raw (take len s) h

decode_form-encode_byte :
    (c : ℕ) (rest : Bytes)
    → IsByte c
    → decode_from false plain (encode_byte true c ++ rest) ≡ c ∷ decode_from false plain rest
unfolding decode_from encode_byte is_escaped
decode_form-encode_byte c rest h =
    ground (arith, digit_value-hexchars (c / 16), digit_value-hexchars (c % 16))

decode_form-encode_all :
    (s : Bytes) → All IsByte s → decode_from false plain (encode_all true s) ≡ s
unfolding encode_all
decode_form-encode_all [] h = unfold decode_from in refl
decode_form-encode_all (c ∷ s) h =
    rw (decode_form-encode_byte c (encode_all true s) h.0, decode_form-encode_all s h.1)

-- The decoding of forms reads the raw encoding as well, since that one writes no `+`.
pub url_decode-urlencode_raw :
    (s : Bytes) (len : ℕ)
    → All IsByte (take len s)
    → url_decode false (urlencode s len true) ≡ take len s
unfolding url_decode urlencode
url_decode-urlencode_raw s len h = decode_form-encode_all (take len s) h

-- An unreserved character of a URL, or one that the encoding itself writes.
abbrev pub is_url_safe : ℕ → Bool
is_url_safe c =
    (leb b'0' c && leb c b'9')
    || (leb b'A' c && leb c b'Z')
    || (leb b'a' c && leb c b'z')
    || c == b'-'
    || c == b'.'
    || c == b'_'
    || c == b'~'
    || c == b'%'
    || c == b'+'

abbrev pub IsUrlSafe : ℕ → Type 0
IsUrlSafe c = is_url_safe c ≡ true

all_safe : Bytes → Bool
all_safe [] = true
all_safe (c ∷ s) = is_url_safe c && all_safe s

all_safe_sound : (s : Bytes) → all_safe s ≡ true → All IsUrlSafe s
unfolding all_safe
all_safe_sound [] h = tt
all_safe_sound (c ∷ s) h = (and_left _ _ h, all_safe_sound s (and_right _ _ h))

safe_table : (raw : Bool) → passes_from (λ c. all_safe (encode_byte raw c)) 0 256 ≡ true
unfolding passes_from all_safe encode_byte is_escaped
safe_table true = refl
safe_table false = refl

encode_byte-IsUrlSafe : (raw : Bool) (c : ℕ) → IsByte c → All IsUrlSafe (encode_byte raw c)
encode_byte-IsUrlSafe raw c h = all_safe_sound _ (
    passes_from_lem (λ b. all_safe (encode_byte raw b)) c 0 256 (safe_table raw) (omega arith)
      (omega arith))

encode_all-IsUrlSafe : (raw : Bool) (s : Bytes) → All IsByte s → All IsUrlSafe (encode_all raw s)
unfolding encode_all
encode_all-IsUrlSafe raw [] h = tt
encode_all-IsUrlSafe raw (c ∷ s) h =
    All-append IsUrlSafe (encode_byte raw c) (encode_all raw s) (encode_byte-IsUrlSafe raw c h.0)
      (encode_all-IsUrlSafe raw s h.1)

-- What is written are characters that a URL or a form value may hold as they are, so no `&` or `=`
-- of the text can end the value that it stands in.
pub urlencode-IsUrlSafe :
    (s : Bytes) (len : ℕ) (raw : Bool)
    → All IsByte (take len s)
    → All IsUrlSafe (urlencode s len raw)
unfolding urlencode
urlencode-IsUrlSafe s len raw h = encode_all-IsUrlSafe raw (take len s) h

length-encode_all-le : (raw : Bool) (s : Bytes) → length (encode_all raw s) ≤ length s * 3
unfolding encode_all encode_byte
length-encode_all-le raw [] = omega arith
length-encode_all-le raw (c ∷ s) =
    ground (arith, length-encode_all-le raw s, length-append (encode_byte raw c) (encode_all raw s))

length-take-le {ℓ} : {A : Type ℓ} (n : ℕ) (xs : List A) → length (take n xs) ≤ n
length-take-le zero xs = omega arith
length-take-le (suc n) [] = omega arith
length-take-le (suc n) (x ∷ xs) = omega (arith, length-take-le n xs)

-- With the 0 behind it the text fits in the `len * 3 + 1` bytes that are allocated.
pub length-urlencode-lt :
    (s : Bytes) (len : ℕ) (raw : Bool) → length (urlencode s len raw) < len * 3 + 1
unfolding urlencode
length-urlencode-lt s len raw =
    omega (arith, length-encode_all-le raw (take len s), length-take-le len s)
