-- ===== src/Text/Html/Bound.antt =====
-- `htmlspecialchars` stays inside of its buffer, for a text of any length.
use gnuweeb_bot.Base.{
  ℕ, ◌+◌, ◌-◌, ◌%◌, ◌^◌, ◌≤◌, ◌<◌, ◌≡◌, ◌∙◌, refl, false, Bool-cases, inl, inr, [], ◌∷◌, arith, ltb,
  leb, le→leb, lt→ltb, if◌then◌else◌, take, length, length-set, set, Bytes, ok,
}
use gnuweeb_bot.Text.Html.{entity, blit, Cursor, copy, finish, htmlspecialchars, length-blit}

entity-size : (c : ℕ) → (1 ≤ length (entity c)) × (length (entity c) ≤ 6)
unfolding entity
entity-size c = ground arith

entity-fits :
    (j n outlen : ℕ)
    → (1 ≤ n) × (n ≤ 6)
    → j ≤ outlen
    → outlen < 2 ^ 63
    → leb outlen ((j + n - 1) % 2 ^ 64) ≡ false
    → j + n ≤ outlen
entity-fits j n outlen q h small free = ground arith

-- The cursor stands inside of the buffer.
abbrev Inside : ℕ → ℕ → Cursor → Type 0
Inside size outlen k = (length k.out ≡ size) × (k.j ≤ outlen) × (k.len ≤ 6)

copy-Inside :
    (size outlen : ℕ) (k : Cursor) (s : Bytes)
    → outlen + 1 < size
    → outlen < 2 ^ 63
    → Inside size outlen k
    → (k' : Cursor) × (copy outlen k s ≡ ok k') × Inside size outlen k'
unfolding copy
copy-Inside size outlen k [] room small q = (k, refl, q)
copy-Inside size outlen k (c ∷ s) room small q =
    elim (Bool-cases (leb outlen ((k.j + length (entity c) - 1) % 2 ^ 64))) [
      | inl full ↦
          rw full (record k { len = length (entity c) }, refl, (q.0, q.1, (entity-size c).1))
      | inr free ↦
          let fits : k.j + length (entity c) ≤ outlen =
            entity-fits k.j (length (entity c)) outlen (entity-size c) q.1 small free in
          let k' : Cursor = record {
            out = blit k.out k.j (entity c);
            j = k.j + length (entity c);
            len = length (entity c);
          } in
          let kept : length k'.out ≡ size = length-blit k.out k.j (entity c) ∙ q.0 in
          rw (free, le→leb (k.j + length (entity c)) (length k.out) (omega arith))
            (copy-Inside size outlen k' s room small (kept, fits, (entity-size c).1))
    ]

-- Where `finish` writes the 0.
abbrev place : ℕ → ℕ → ℕ → ℕ
place outlen j len = ((if ltb outlen (j + 1) then (j + 2 ^ 64 - len) % 2 ^ 64 else j) + 1) % 2 ^ 64

place-fits :
    (outlen j len : ℕ)
    → 6 ≤ outlen
    → outlen < 2 ^ 63
    → j ≤ outlen
    → len ≤ 6
    → (1 ≤ place outlen j len) × (place outlen j len ≤ outlen + 1)
place-fits outlen j len six small h h' = ground arith

-- Behind the loop, the 0 is written inside as well, and the number returned is that of its place.
finish-fits :
    (size outlen : ℕ) (k : Cursor)
    → 6 ≤ outlen
    → outlen + 1 < size
    → outlen < 2 ^ 63
    → Inside size outlen k
    → (out' : Bytes) × (ret : ℕ) × (finish outlen k ≡ ok (out', ret))
      × (length out' ≡ size)
      × (1 ≤ ret)
      × (ret ≤ outlen + 1)
unfolding finish
finish-fits size outlen k six room small q =
    let at : (1 ≤ place outlen k.j k.len) × (place outlen k.j k.len ≤ outlen + 1) =
      place-fits outlen k.j k.len six small q.1 q.2 in
    rw (lt→ltb 0 outlen (omega arith), lt→ltb (place outlen k.j k.len) (length k.out) (omega arith))
      (
        set k.out (place outlen k.j k.len) 0,
        place outlen k.j k.len,
        refl,
        length-set k.out (place outlen k.j k.len) 0 ∙ q.0,
        at.0,
        at.1,
      )

-- In a buffer of more than `outlen + 1` bytes, `outlen` of them at least 6, a text of any length is
-- written inside of the buffer, and the number that is returned is at most `outlen + 1`.
pub htmlspecialchars-fits :
    (out : Bytes) (outlen : ℕ) (input : Bytes) (inlen : ℕ)
    → 6 ≤ outlen
    → outlen + 1 < length out
    → outlen < 2 ^ 63
    → (out' : Bytes) × (ret : ℕ) × (htmlspecialchars out outlen input inlen ≡ ok (out', ret))
      × (length out' ≡ length out)
      × (1 ≤ ret)
      × (ret ≤ outlen + 1)
unfolding htmlspecialchars
htmlspecialchars-fits out outlen input inlen six room small =
    let k₀ : Cursor = record { out = out; j = 0; len = 0 } in
    let (k, run, q) =
      copy-Inside (length out) outlen k₀ (take inlen input) room small
        (refl, omega arith, omega arith) in
    rw run (finish-fits (length out) outlen k six room small q)
