-- ===== src/Server/Memory.antt =====
-- Laws of the byte arrays of the server: what a copy changes, and what a read sees of it.
use gnuweeb_bot.Base.{
  ℕ, zero, suc, ◌+◌, ◌≤◌, ◌<◌, ◌≡◌, refl, ap, ap₂, ◌∙◌, [], ◌∷◌, ◌++◌, arith, ◌==◌, if◌then◌else◌,
  length, Bytes,
}
use gnuweeb_bot.Server.State.{Memory, store_bytes, load_bytes}

pub load-length : (m : Memory) (off n : ℕ) → length (load_bytes m off n) ≡ n
load-length m off zero = refl
load-length m off (suc n) = ap suc (load-length m (off + 1) n)

-- A copy leaves the bytes below and above its place alone.
pub store_below :
    (m : Memory) (off : ℕ) (bs : Bytes) (i : ℕ) → i < off → store_bytes m off bs i ≡ m i
store_below m off [] i h = refl
store_below m off (b ∷ bs) i h =
    store_below (λ k. if k == off then b else m k) (off + 1) bs i (omega arith) ∙ ground arith

pub store_above :
    (m : Memory) (off : ℕ) (bs : Bytes) (i : ℕ) → off + length bs ≤ i → store_bytes m off bs i ≡ m i
store_above m off [] i h = refl
store_above m off (b ∷ bs) i h =
    store_above (λ k. if k == off then b else m k) (off + 1) bs i (omega arith) ∙ ground arith

-- Arrays that agree in a range read alike there.
pub load_same :
    (m m' : Memory) (off n : ℕ)
    → ((i : ℕ) → off ≤ i → i < off + n → m i ≡ m' i)
    → load_bytes m off n ≡ load_bytes m' off n
load_same m m' off zero same = refl
load_same m m' off (suc n) same =
    ap₂ ◌∷◌ (same off (omega arith) (omega arith))
      (load_same m m' (off + 1) n (λ i lo hi. same i (omega arith) (omega arith)))

pub load-store :
    (m : Memory) (off : ℕ) (bs : Bytes) → load_bytes (store_bytes m off bs) off (length bs) ≡ bs
load-store m off [] = refl
load-store m off (b ∷ bs) =
    ap₂ ◌∷◌ (store_below m' (off + 1) bs off (omega arith) ∙ ground arith)
      (load-store m' (off + 1) bs)
  where
    m' : Memory
    m' k = if k == off then b else m k

load_at :
    (m : Memory) (off off' n n' : ℕ)
    → off ≡ off'
    → n ≡ n'
    → load_bytes m off n ≡ load_bytes m off' n'
load_at m off off' n n' e f = ap₂ (load_bytes m) e f

pub load-add :
    (m : Memory) (off n k : ℕ)
    → load_bytes m off (n + k) ≡ load_bytes m off n ++ load_bytes m (off + n) k
load-add m off zero k = load_at m off (off + 0) (0 + k) k (omega arith) (omega arith)
load-add m off (suc n) k =
    load_at m off off (suc n + k) (suc (n + k)) refl (omega arith)
    ∙ ap (◌∷◌ (m off)) (
        load-add m (off + 1) n k
        ∙ ap (λ (t : Bytes). load_bytes m (off + 1) n ++ t)
            (load_at m (off + 1 + n) (off + suc n) k k (omega arith) refl))

-- Bytes stored right behind a text extend it.
pub load-store_behind :
    (m : Memory) (bs cs : Bytes) (n : ℕ)
    → load_bytes m 0 n ≡ bs
    → n ≡ length bs
    → load_bytes (store_bytes m n cs) 0 (n + length cs) ≡ bs ++ cs
load-store_behind m bs cs n held e =
    load-add (store_bytes m n cs) 0 n (length cs)
    ∙ ap₂ ◌++◌
        (load_same (store_bytes m n cs) m 0 n (λ i lo hi. store_below m n cs i (omega arith))
          ∙ held)
        (load_at (store_bytes m n cs) (0 + n) n (length cs) (length cs) (omega arith) refl
          ∙ load-store m n cs)
