-- ===== src/Server/NewChans.antt =====
-- The channels that the set-up makes, and their numbers (core/server.c).
use gnuweeb_bot.Base.{
  ℕ, zero, suc, ◌+◌, ◌^◌, ◌≤◌, ◌<◌, ◌≡◌, refl, ap, ◌∙◌, some, List, [], ◌∷◌, get_elem?,
  lt_of_get_elem?, length, All, arith,
}
use gnuweeb_bot.Server.State.{Chan, reset_chan}
use gnuweeb_bot.Server.Setup.{zero_chan, new_chans}
use gnuweeb_bot.Server.Slots.{NotIn, Distinct, online}

-- The numbers below `n`, in order, before `xs`.
abbrev pub upto : ℕ → List ℕ → List ℕ
upto zero xs = xs
upto (suc i) xs = upto i (i ∷ xs)

pub upto-Distinct : (i : ℕ) (xs : List ℕ) → Distinct xs → All (λ k. i ≤ k) xs → Distinct (upto i xs)
upto-Distinct zero xs d h = d
upto-Distinct (suc i) xs d h = upto-Distinct i (i ∷ xs) (apart xs h, d) (omega arith, weaken xs h)
  where
    apart : (ys : List ℕ) → All (λ k. suc i ≤ k) ys → NotIn i ys
    apart [] g = tt
    apart (y ∷ ys) (g, gs) = (omega arith, apart ys gs)

    weaken : (ys : List ℕ) → All (λ k. suc i ≤ k) ys → All (λ k. i ≤ k) ys
    weaken [] g = tt
    weaken (y ∷ ys) (g, gs) = (omega arith, weaken ys gs)

pub length-upto : (i : ℕ) (xs : List ℕ) → length (upto i xs) ≡ i + length xs
length-upto zero xs = omega arith
length-upto (suc i) xs = omega (arith, length-upto i (i ∷ xs))

pub upto-All :
    (P : ℕ → Type 0) (i n : ℕ) (xs : List ℕ)
    → ((k : ℕ) → k < n → P k)
    → i ≤ n
    → All P xs
    → All P (upto i xs)
upto-All P zero n xs p le h = h
upto-All P (suc i) n xs p le h = upto-All P i n (i ∷ xs) p (omega arith) (p i (omega arith), h)

pub new_chans_at :
    (i n k : ℕ) → k < n → get_elem? (new_chans i n) k ≡ some (reset_chan zero_chan (i + k))
unfolding new_chans
new_chans_at i zero k lt = absurd (omega arith)
new_chans_at i (suc n) zero lt = ap (λ (j : ℕ). some (reset_chan zero_chan j)) (omega arith)
new_chans_at i (suc n) (suc k) lt =
    new_chans_at (i + 1) n k (omega arith)
    ∙ ap (λ (j : ℕ). some (reset_chan zero_chan j)) (omega arith)

pub length-new_chans : (i n : ℕ) → length (new_chans i n) ≡ n
unfolding new_chans
length-new_chans i zero = refl
length-new_chans i (suc n) = ap suc (length-new_chans (i + 1) n)

pub online-new_chans : (i n : ℕ) → online (new_chans i n) ≡ 0
unfolding new_chans reset_chan
online-new_chans i zero = refl
online-new_chans i (suc n) = omega (arith, online-new_chans (i + 1) n)

pub new_chans-numbered :
    (n m : ℕ) (c : Chan) → n < 2 ^ 16 → get_elem? (new_chans 0 n) m ≡ some c → c.chan_idx ≡ m
unfolding reset_chan
new_chans-numbered n m c w at =
    let lt : m < n = omega (arith, lt_of_get_elem? (new_chans 0 n) m at, length-new_chans 0 n) in
    let made = new_chans_at 0 n m lt in ground arith
