-- ===== src/Text/Html.antt =====
-- `htmlspecialchars` of lib/string.c, with the buffer that it writes to.
pub mod Bound
use gnuweeb_bot.Base.{
  ℕ, zero, suc, ◌+◌, ◌-◌, ◌%◌, ◌^◌, ◌≤◌, ◌<◌, ◌≡◌, ◌∙◌, refl, sym, ap, append-nil, append_assoc, [],
  ◌∷◌, ◌++◌, arith, ltb, leb, le→leb, lt→not_leb, ◌==◌, if◌then◌else◌, take, length, length-append,
  length-set, set, get_elem?, some, get_elem?-set_self, get_elem?-set_ne, Bytes, codes, Outcome, ok,
  crash, out_of_bounds, check, ◌>>=◌, ◌>>◌,
}

-- `html_map`, and the character itself where the map has none.
unfoldable pub entity : ℕ → Bytes
entity c =
    if c == b'<'
    then codes "&lt;"
    else if c == b'>'
    then codes "&gt;"
    else if c == b'"'
    then codes "&quot;"
    else if c == b'&'
    then codes "&amp;"
    else c ∷ []

-- The text that the entities of all characters make.
abbrev pub escaped : Bytes → Bytes
escaped [] = []
escaped (c ∷ s) = entity c ++ escaped s

-- `memcpy(&out[j], bytes, length bytes)` inside the object.
abbrev pub blit : Bytes → ℕ → Bytes → Bytes
blit out j [] = out
blit out j (b ∷ bs) = blit (set out j b) (suc j) bs

-- The locals `output`, `j` and `len`.
pub record Cursor : Type 0 where
  pub out : Bytes
  pub j : ℕ
  pub len : ℕ

copy : ℕ → Cursor → Bytes → Outcome Cursor
unfolding entity
copy outlen k [] = ok k
copy outlen k (c ∷ s) =
    let n = length (entity c) in
    let k' : Cursor = record { out = blit k.out k.j (entity c); j = k.j + n; len = n } in
    let rest = copy outlen k' s in
    if leb outlen ((k.j + n - 1) % 2 ^ 64)
    then ok (record k { len = n })
    else (check (leb (k.j + n) (length k.out)) out_of_bounds >> rest)

-- The part behind the loop.
finish : ℕ → Cursor → Outcome (Bytes × ℕ)
finish outlen k =
    if ltb 0 outlen
    then (do
      let j = if ltb outlen (k.j + 1) then (k.j + 2 ^ 64 - k.len) % 2 ^ 64 else k.j
      let end = (j + 1) % 2 ^ 64
      check (ltb end (length k.out)) out_of_bounds
      ok (set k.out end 0, end))
    else ok (k.out, k.j)

-- `out` is the object at `_output`; the result is the object afterwards, and what is returned.
unfoldable pub htmlspecialchars : Bytes → ℕ → Bytes → ℕ → Outcome (Bytes × ℕ)
unfolding copy finish
htmlspecialchars out outlen input inlen = do
  k ← copy outlen (record { out = out; j = 0; len = 0 }) (take inlen input)
  finish outlen k

length-blit : (out : Bytes) (j : ℕ) (bs : Bytes) → length (blit out j bs) ≡ length out
length-blit out j [] = refl
length-blit out j (b ∷ bs) = length-blit (set out j b) (suc j) bs ∙ length-set out j b

blit-append :
    (out : Bytes) (j k : ℕ) (xs ys : Bytes)
    → k ≡ j + length xs
    → blit (blit out j xs) k ys ≡ blit out j (xs ++ ys)
blit-append out j k [] ys e = ap (λ (i : ℕ). blit out i ys) (omega arith)
blit-append out j k (x ∷ xs) ys e = blit-append (set out j x) (suc j) k xs ys (omega arith)

take-set_at :
    (out : Bytes) (j b : ℕ) → j < length out → take (suc j) (set out j b) ≡ take j out ++ b ∷ []
take-set_at [] j b h = absurd (omega arith)
take-set_at (x ∷ out) zero b h = refl
take-set_at (x ∷ out) (suc j) b h = ap (◌∷◌ x) (take-set_at out j b (omega arith))

take-set_above : (out : Bytes) (i j b : ℕ) → j ≤ i → take j (set out i b) ≡ take j out
take-set_above out i zero b h = refl
take-set_above [] i (suc j) b h = refl
take-set_above (x ∷ out) zero (suc j) b h = absurd (omega arith)
take-set_above (x ∷ out) (suc i) (suc j) b h = ap (◌∷◌ x) (take-set_above out i j b (omega arith))

take-blit :
    (out : Bytes) (j k : ℕ) (bs : Bytes)
    → k ≡ j + length bs
    → k ≤ length out
    → take k (blit out j bs) ≡ take j out ++ bs
take-blit out j k [] e h = take_same ∙ sym (append-nil (take j out))
  where
    at : k ≡ j
    at = omega arith

    take_same : take k out ≡ take j out
    take_same = ap (λ (i : ℕ). take i out) at
take-blit out j k (b ∷ bs) e h =
    take-blit (set out j b) (suc j) k bs (omega arith) (rw length-set h)
    ∙ ap (λ (p : Bytes). p ++ bs) (take-set_at out j b (omega arith))
    ∙ append_assoc (take j out) (b ∷ []) bs

entity_bounds : (c : ℕ) → (1 ≤ length (entity c)) × (length (entity c) ≤ 6)
unfolding entity
entity_bounds c = ground arith

-- Where the text fits, the loop writes all of it.
copy_all :
    (outlen : ℕ) (k : Cursor) (s : Bytes)
    → k.j + length (escaped s) ≤ outlen
    → outlen ≤ length k.out
    → outlen < 2 ^ 64
    → (n : ℕ) × (copy outlen k s
        ≡ ok (record { out = blit k.out k.j (escaped s); j = k.j + length (escaped s); len = n }))
unfolding copy
copy_all outlen k [] fits room w = (k.len, ap (λ (i : ℕ). ok (record k { j = i })) (omega arith))
copy_all outlen k (c ∷ s) fits room w =
    let n = length (entity c) in
    let k' : Cursor = record { out = blit k.out k.j (entity c); j = k.j + n; len = n } in
    let len_eq = length-append (entity c) (escaped s) in
    let (m, run) = copy_all outlen k' s (omega (arith, len_eq)) (rw length-blit room) w in
    (
      m,
      rw
          (
            lt→not_leb outlen ((k.j + n - 1) % 2 ^ 64) (omega (arith, entity_bounds c, len_eq)),
            le→leb (k.j + n) (length k.out) (omega (arith, len_eq)),
            run,
            blit-append k.out k.j (k.j + n) (entity c) (escaped s) refl,
          )
          (ap
            (λ (i : ℕ).
              ok (record { out = blit k.out k.j (entity c ++ escaped s); j = i; len = m }))
            (omega (arith, len_eq))),
    )

get_elem?-blit_above :
    (out : Bytes) (j k : ℕ) (bs : Bytes)
    → j + length bs ≤ k
    → get_elem? (blit out j bs) k ≡ get_elem? out k
get_elem?-blit_above out j k [] h = refl
get_elem?-blit_above out j k (b ∷ bs) h =
    get_elem?-blit_above (set out j b) (suc j) k bs (omega arith)
    ∙ get_elem?-set_ne out j k b (λ e. omega arith)

module _ (out : Bytes) (outlen : ℕ) (input : Bytes) (inlen : ℕ) where
  -- The text to be written, and its length.
  abbrev pub wanted : Bytes
  wanted = escaped (take inlen input)

  -- What a call leaves behind that had the room: `*_output` and the returned number.
  pub record Written (out' : Bytes) (ret : ℕ) : Type 0 where
    pub text : take (length wanted) out' ≡ wanted
    pub gap : get_elem? out' (length wanted) ≡ get_elem? out (length wanted)
    pub stop : get_elem? out' (length wanted + 1) ≡ some 0
    pub returned : ret ≡ length wanted + 1

  run_copy :
      length wanted ≤ outlen
      → outlen ≤ length out
      → outlen < 2 ^ 64
      → (n : ℕ) × (copy outlen (record { out = out; j = 0; len = 0 }) (take inlen input)
          ≡ ok (record { out = blit out 0 wanted; j = length wanted; len = n }))
  run_copy fits room w =
      let (n, run) =
        copy_all outlen (record { out = out; j = 0; len = 0 }) (take inlen input) (omega arith) room
          w in
      (
        n,
        run ∙ ap (λ (i : ℕ). ok (record { out = blit out 0 wanted; j = i; len = n })) (omega arith),
      )

  -- Where the buffer has two bytes more than the escaped text, the whole text is written. The 0 is
  -- put one byte behind the place where the text ends, the byte between is left as it was, and the
  -- number returned is the length of the text plus one.
  pub htmlspecialchars-Written :
      length wanted + 2 ≤ outlen
      → outlen ≤ length out
      → outlen < 2 ^ 64
      → (out' : Bytes) × (ret : ℕ) × (htmlspecialchars out outlen input inlen ≡ ok (out', ret))
        × Written out' ret
  unfolding htmlspecialchars
  htmlspecialchars-Written fits room w =
      let (n, run) = run_copy (omega arith) room w in
      let out₁ = blit out 0 wanted in
      let size = length-blit out 0 wanted in
      (
        set out₁ (length wanted + 1) 0,
        length wanted + 1,
        rw run (ground (arith, size)),
        record {
          text =
              take-set_above out₁ (length wanted + 1) (length wanted) 0 (omega arith)
              ∙ take-blit out 0 (length wanted) wanted (omega arith) (omega arith);
          gap =
              get_elem?-set_ne out₁ (length wanted + 1) (length wanted) 0 (λ e. omega arith)
              ∙ get_elem?-blit_above out 0 (length wanted) wanted (omega arith);
          stop = get_elem?-set_self out₁ (length wanted + 1) 0 (omega (arith, size));
          returned = refl;
        },
      )

  -- Where the escaped text leaves one byte of the buffer free, which is the room that the text and
  -- a 0 behind it take, the 0 is written outside the buffer.
  pub htmlspecialchars_overflow :
      length wanted + 1 ≡ outlen
      → outlen ≡ length out
      → outlen < 2 ^ 64
      → htmlspecialchars out outlen input inlen ≡ crash out_of_bounds
  unfolding htmlspecialchars
  htmlspecialchars_overflow fits room w =
      let (n, run) = run_copy (omega arith) (omega arith) w in
      rw run (ground (arith, length-blit out 0 wanted))
