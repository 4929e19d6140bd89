-- ===== src/Arena/Tests.antt =====
-- Tests of the arena, and its theorem at a concrete text.
use gnuweeb_bot.Base.{
  ℕ, ◌≡◌, refl, [], ◌∷◌, ◌++◌, Bytes, codes, Outcome, ok, crash, assertion, ◌>>=◌,
}
use gnuweeb_bot.Server.State.{load_bytes}
use gnuweeb_bot.Arena.{Arena, ar_init, ar_unused_size, ar_alloc, ar_strdup, ar_strndup}

abbrev start : Arena
start = record { addr = λ i. 0xaa; size = 64; pos = 0 }

-- The first bytes, the place of the second text, and what is left.
abbrev seen : Arena × ℕ → Bytes × ℕ × ℕ
seen (ar, at) = (load_bytes ar.addr 0 8, at, ar_unused_size ar)

abbrev two : Outcome (Arena × ℕ)
two = ar_strdup (ar_init (λ i. 0xaa) 64) (codes "ab") >>= λ r. ar_strndup r.0 (codes "cdef") 3

two_texts :
    (two >>= λ r. ok (seen r)) ≡ ok (codes "ab" ++ (0 ∷ codes "cde") ++ (0 ∷ 0xaa ∷ []), 3, 57)
unfolding ar_init ar_strdup ar_strndup ar_unused_size
two_texts = refl

-- The last byte of the arena is never given away.
whole_arena : ar_alloc start 64 ≡ crash assertion
unfolding ar_alloc
whole_arena = refl
