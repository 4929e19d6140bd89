-- ===== src/Text/Decimal.antt =====
-- The conversions `%PRIu64` and `%PRId64` of `snprintf`, by which the requests write ids, against the
-- reading of decimal digits.
use gnuweeb_bot.Base.{
  ℕ, zero, suc, ◌+◌, ◌-◌, ◌*◌, ◌/◌, ◌%◌, ◌^◌, ◌≤◌, ◌<◌, ◌≡◌, ◌∙◌, refl, ap, [], ◌∷◌, ◌++◌, arith,
  ltb, ◌==◌, if◌then◌else◌, length, length-append, All, All-append, Bytes, Bool-cases, inl, inr,
}
use gnuweeb_bot.Base.Int.{ℤ, pos, negsuc}

-- The digits of a number below 10 ^ (k + 1).
pub digits : ℕ → ℕ → Bytes
digits zero v = (b'0' + v % 10) ∷ []
digits (suc k) v =
    let front = digits k (v / 10) in
    if ltb v 10 then (b'0' + v) ∷ [] else front ++ (b'0' + v % 10) ∷ []

-- A `uint64_t` is below 10 ^ 20.
unfoldable pub print_u64 : ℕ → Bytes
unfolding digits
print_u64 v = digits 19 v

unfoldable pub print_i64 : ℤ → Bytes
unfolding print_u64
print_i64 (pos n) = print_u64 n
print_i64 (negsuc n) = b'-' ∷ print_u64 (n + 1)

-- The number that digits stand for, behind those read so far.
pub read_from : ℕ → Bytes → ℕ
read_from n [] = n
read_from n (c ∷ s) = read_from (n * 10 + (c - b'0')) s

pub read_u64 : Bytes → ℕ
unfolding read_from
read_u64 s = read_from 0 s

abbrev negated : ℕ → ℤ
negated zero = pos 0
negated (suc n) = negsuc n

pub read_i64 : Bytes → ℤ
unfolding read_u64
read_i64 [] = pos 0
read_i64 (c ∷ s) = if c == b'-' then negated (read_u64 s) else pos (read_u64 (c ∷ s))

abbrev pub IsDigit : ℕ → Type 0
IsDigit c = (b'0' ≤ c) × (c ≤ b'9')

digits-IsDigit : (k v : ℕ) → All IsDigit (digits k v)
unfolding digits
digits-IsDigit zero v = (omega arith, tt)
digits-IsDigit (suc k) v = elim (Bool-cases (ltb v 10)) [
  | inl small ↦ rw small (ground arith, tt)
  | inr large ↦
      rw large
        (All-append IsDigit (digits k (v / 10)) _ (digits-IsDigit k (v / 10)) (omega arith, tt))
]

length-digits-le : (k v : ℕ) → length (digits k v) ≤ k + 1
unfolding digits
length-digits-le zero v = omega arith
length-digits-le (suc k) v =
    ground
      (arith, length-digits-le k (v / 10), length-append (digits k (v / 10)) ((b'0' + v % 10) ∷ []))

-- Digits are read one after the other.
read_from-append :
    (n : ℕ) (s : Bytes) (c : ℕ) → read_from n (s ++ c ∷ []) ≡ read_from n s * 10 + (c - b'0')
unfolding read_from
read_from-append n [] c = refl
read_from-append n (d ∷ s) c = read_from-append (n * 10 + (d - b'0')) s c

read_from-digits : (k v : ℕ) → v < 10 ^ suc k → read_from 0 (digits k v) ≡ v
unfolding digits
read_from-digits zero v h = unfold read_from in omega arith
read_from-digits (suc k) v h = elim (Bool-cases (ltb v 10)) [
  | inl small ↦ rw small (unfold read_from in omega arith)
  | inr large ↦
      rw
        (
          large,
          read_from-append 0 (digits k (v / 10)) (b'0' + v % 10),
          read_from-digits k (v / 10) (omega arith),
        )
        (omega arith)
]

pub print_u64-IsDigit : (v : ℕ) → All IsDigit (print_u64 v)
unfolding print_u64
print_u64-IsDigit v = digits-IsDigit 19 v

pub length-print_u64-le : (v : ℕ) → length (print_u64 v) ≤ 20
unfolding print_u64
length-print_u64-le v = length-digits-le 19 v

pub length-print_i64-le : (z : ℤ) → length (print_i64 z) ≤ 21
unfolding print_i64
length-print_i64-le (pos n) = omega (arith, length-print_u64-le n)
length-print_i64-le (negsuc n) = omega (arith, length-print_u64-le (n + 1))

pub read_u64-print_u64 : (v : ℕ) → v < 2 ^ 64 → read_u64 (print_u64 v) ≡ v
unfolding read_u64 print_u64
read_u64-print_u64 v h = read_from-digits 19 v (omega arith)

read_i64_digits : (s : Bytes) → All IsDigit s → read_i64 s ≡ pos (read_u64 s)
unfolding read_i64
read_i64_digits [] h = unfold read_u64 read_from in refl
read_i64_digits (c ∷ s) h = ground (arith, h.0)

-- The value is one of `int64_t`.
abbrev pub IsInt64 : ℤ → Type 0
IsInt64 (pos n) = n < 2 ^ 63
IsInt64 (negsuc n) = n < 2 ^ 63

pub read_i64-print_i64 : (z : ℤ) → IsInt64 z → read_i64 (print_i64 z) ≡ z
unfolding print_i64
read_i64-print_i64 (pos n) h =
    read_i64_digits (print_u64 n) (print_u64-IsDigit n)
    ∙ ap pos (read_u64-print_u64 n (omega arith))
read_i64-print_i64 (negsuc n) h =
    unfold read_i64 in rw (read_u64-print_u64 (n + 1) (omega arith)) (ground arith)
