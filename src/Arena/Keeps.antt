-- ===== src/Arena/Keeps.antt =====
-- A text in the arena stays as it is, whatever is taken from the arena later.
use gnuweeb_bot.Base.{
  ℕ, zero, suc, ◌+◌, ◌%◌, ◌^◌, ◌≤◌, ◌<◌, ◌≡◌, ◌∙◌, refl, ap, [], ◌∷◌, arith, lt→ltb, Bytes, take,
  length, c_text, strnlen, strnlen-le, strnlen-le-length, take-strnlen, ok,
}
use gnuweeb_bot.Server.State.{store_bytes, load_bytes}
use gnuweeb_bot.Server.Memory.{load-store, load_same, store_below, store_above}
use gnuweeb_bot.Arena.{Arena, ar_alloc, ar_copy, ar_strndup}

-- At an offset below the part that is free stands a text, with a 0 behind it.
pub record Keeps (ar : Arena) (at : ℕ) (s : Bytes) : Type 0 where
  pub below : at + length s < ar.pos
  pub text : load_bytes ar.addr at (length s) ≡ s
  pub stop : ar.addr (at + length s) ≡ 0

length-take : (n : ℕ) (s : Bytes) → n ≤ length s → length (take n s) ≡ n
length-take zero s h = refl
length-take (suc n) [] h = absurd (omega arith)
length-take (suc n) (c ∷ s) h = ap suc (length-take n s (omega arith))

pub length-take-le : (n : ℕ) (s : Bytes) → length (take n s) ≤ n
length-take-le zero s = omega arith
length-take-le (suc n) [] = omega arith
length-take-le (suc n) (c ∷ s) = omega (arith, length-take-le n s)

-- What a copy gives: its place keeps the text, and every text that was kept is kept.
pub record Copied (ar : Arena) (s : Bytes) (ar' : Arena) (at : ℕ) : Type 0 where
  pub kept : Keeps ar' at s
  pub others : (p : ℕ) (t : Bytes) → Keeps ar p t → Keeps ar' p t
  pub same_size : ar'.size ≡ ar.size
  pub pos : ar'.pos ≡ ar.pos + length s + 1

ar_copy-Copied :
    (ar : Arena) (str : Bytes) (len : ℕ)
    → len ≤ length str
    → ar.pos + len + 1 < ar.size
    → ar.size < 2 ^ 64
    → (ar' : Arena) × (at : ℕ) × (ar_copy ar str len ≡ ok (ar', at))
      × Copied ar (take len str) ar' at
unfolding ar_copy ar_alloc
ar_copy-Copied ar str len h room small =
    let pos = (ar.pos + (len + 1)) % 2 ^ 64 in
    let m₁ = store_bytes ar.addr (ar.pos + len) (0 ∷ []) in
    let m₂ = store_bytes m₁ ar.pos (take len str) in
    let ar' : Arena = record { addr = m₂; size = ar.size; pos = pos } in
    let n : length (take len str) ≡ len = length-take len str h in
    let stop : m₁ (ar.pos + len) ≡ 0 = ground arith in
    rw (lt→ltb pos ar.size (omega arith)) (
      ar',
      ar.pos,
      refl,
      record {
        kept = record {
          below = omega (arith, n);
          text = load-store m₁ ar.pos (take len str);
          stop =
              store_above m₁ ar.pos (take len str) (ar.pos + length (take len str))
                (omega (arith, n))
              ∙ ap m₁ (omega (arith, n))
              ∙ stop;
        };
        others = λ p t k. record {
          below = omega (arith, k.below);
          text =
              load_same m₂ ar.addr p (length t) (λ i lo hi.
                store_below m₁ ar.pos (take len str) i (omega (arith, k.below))
                ∙ store_below ar.addr (ar.pos + len) (0 ∷ []) i (omega (arith, k.below)))
              ∙ k.text;
          stop =
              store_below m₁ ar.pos (take len str) (p + length t) k.below
              ∙ store_below ar.addr (ar.pos + len) (0 ∷ []) (p + length t) (omega (arith, k.below))
              ∙ k.stop;
        };
        same_size = refl;
        pos = omega (arith, n);
      },
    )

-- Where the arena has room for `inlen` bytes and a 0, `ar_strndup` gives a place that keeps the text
-- up to its 0, at most `inlen` bytes of it, and every text kept in the arena before is kept.
pub ar_strndup-Copied :
    (ar : Arena) (str : Bytes) (inlen : ℕ)
    → ar.pos + inlen + 1 < ar.size
    → ar.size < 2 ^ 64
    → (ar' : Arena) × (at : ℕ) × (ar_strndup ar str inlen ≡ ok (ar', at))
      × Copied ar (take inlen (c_text str)) ar' at
unfolding ar_strndup
ar_strndup-Copied ar str inlen room small =
    let (ar', at, run, copied) =
      ar_copy-Copied ar str (strnlen str inlen) (strnlen-le-length str inlen)
        (omega (arith, strnlen-le str inlen)) small in
    (ar', at, run, rw (take-strnlen str inlen) at copied)
