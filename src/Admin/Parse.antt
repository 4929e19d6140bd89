-- ===== src/Admin/Parse.antt =====
-- Which command a text is: the names in any case, and what stands behind them.
use gnuweeb_bot.Base.{
  ℕ, ◌-◌, ◌<◌, ◌≡◌, ◌≢◌, refl, ap, ◌∙◌, true, false, Option, none, some, List, [], ◌∷◌, ◌++◌,
  get_elem?, zero, suc, leb, Bytes, codes, has_prefix, drop, length, arith, All, map, take,
  Bool-cases, inl, inr,
}
use gnuweeb_bot.Admin.{
  Cmd, delvote, delete, commands, match_cmd, find_cmd, strtolower_cp, to_lower, is_ws,
}
use mathlib.Core.Option.{some_inj}
use mathlib.Core.Path.{subst}

-- A byte that can stand in a word.
abbrev pub IsWordByte : ℕ → Type 0
IsWordByte c = (c ≢ 0) × (is_ws c ≡ false)

-- What can stand behind a word: the end of the text, or a white space and the rest.
pub data Tail : Bytes → Type 0 where
  bare : Tail []
  spaced : (sp : ℕ) (rest : Bytes) → is_ws sp ≡ true → Tail (sp ∷ rest)

strtolower_cp-Tail : (tail : Bytes) (n : ℕ) → Tail tail → strtolower_cp tail n ≡ some []
unfolding strtolower_cp
strtolower_cp-Tail _ n bare = refl
strtolower_cp-Tail _ n (spaced sp rest ws) = ground arith

-- The first word of a text is stored in lower case.
pub strtolower_cp-word :
    (w tail : Bytes) (n : ℕ)
    → All IsWordByte w
    → Tail tail
    → length w < n
    → strtolower_cp (w ++ tail) n ≡ some (map to_lower w)
unfolding strtolower_cp
strtolower_cp-word [] tail n h t lt = strtolower_cp-Tail tail n t
strtolower_cp-word (c ∷ w) tail n (hc, h) t lt =
    let below : length w < n - 1 = omega arith in
    let rec = strtolower_cp-word w tail (n - 1) h t below in ground (arith, rec)

-- A command's name stands for the command, and is short enough to be stored.
abbrev FindsOwn : Bytes → Bytes × Cmd → Type 0
FindsOwn tx e =
    (match_cmd commands e.0 tx ≡ some (e.1, drop (length e.0) tx)) × (leb (length e.0) 8 ≡ true)

-- The names but the last, `delvote`, which begins with the name `del`.
names_found : (tx : Bytes) → All (FindsOwn tx) (take 15 commands)
unfolding match_cmd
names_found tx = (
  (refl, refl),
  (
    (refl, refl),
    (
      (refl, refl),
      (
        (refl, refl),
        (
          (refl, refl),
          (
            (refl, refl),
            (
              (refl, refl),
              (
                (refl, refl),
                (
                  (refl, refl),
                  (
                    (refl, refl),
                    (
                      (refl, refl),
                      ((refl, refl), ((refl, refl), ((refl, refl), ((refl, refl), tt)))),
                    ),
                  ),
                ),
              ),
            ),
          ),
        ),
      ),
    ),
  ),
)

all_at {ℓ κ} :
    {A : Type ℓ} (P : A → Type κ) (n k : ℕ) (xs : List A) (x : A)
    → All P (take n xs)
    → get_elem? xs k ≡ some x
    → k < n
    → P x
all_at P zero k xs x h at lt = absurd (omega arith)
all_at P (suc n) k [] x h at lt = ground arith
all_at P (suc n) zero (y ∷ xs) x h at lt = subst P (some_inj.0 at) h.0
all_at P (suc n) (suc k) (y ∷ xs) x h at lt = all_at P n k xs x h.1 at (omega arith)

drop_word : (w s : Bytes) → drop (length w) (w ++ s) ≡ s
drop_word [] s = refl
drop_word (c ∷ w) s = drop_word w s

length-map : (f : ℕ → ℕ) (w : Bytes) → length (map f w) ≡ length w
length-map f [] = refl
length-map f (c ∷ w) = ap suc (length-map f w)

-- A name in any mixture of cases, before a white space or at the end, is the command of that name, and
-- what stands behind the name is kept.
pub find_cmd-word :
    (w tail : Bytes) (k : ℕ) (cmd : Cmd)
    → get_elem? commands k ≡ some (map to_lower w, cmd)
    → k < 15
    → All IsWordByte w
    → Tail tail
    → find_cmd (w ++ tail) ≡ some (cmd, tail)
unfolding find_cmd
find_cmd-word w tail k cmd at lt h t =
    let (found, short) =
      all_at (FindsOwn (w ++ tail)) 15 k commands (map to_lower w, cmd) (names_found (w ++ tail)) at
        lt in
    let size : length (map to_lower w) ≡ length w = length-map to_lower w in
    let behind : drop (length (map to_lower w)) (w ++ tail) ≡ tail = rw size (drop_word w tail) in
    rw (find_cmd, strtolower_cp-word w tail 9 h t (ground arith))
      (found ∙ ap (λ (s : Bytes). some (cmd, s)) behind)

-- A text that begins with the last name begins with `del` too.
del-delvote :
    (yx : Bytes) → has_prefix (codes "delvote") yx ≡ true → has_prefix (codes "del") yx ≡ true
del-delvote [] h = ground arith
del-delvote (a ∷ []) h = ground arith
del-delvote (a ∷ b ∷ []) h = ground arith
del-delvote (a ∷ b ∷ c ∷ yx) h = ground arith

-- The command found is the first whose name fits.
first_found :
    (entries : List (Bytes × Cmd)) (yx tx : Bytes) (found : Cmd × Bytes)
    → match_cmd entries yx tx ≡ some found
    → (k : ℕ) × (name : Bytes) × (get_elem? entries k ≡ some (name, found.0))
      × (has_prefix name yx ≡ true)
      × ((j : ℕ) (e : Bytes × Cmd)
          → get_elem? entries j ≡ some e
          → j < k
          → has_prefix e.0 yx ≡ false)
unfolding match_cmd
first_found [] yx tx found e = ground arith
first_found (x ∷ entries) yx tx found e = elim (Bool-cases (has_prefix x.0 yx)) [
  | inl here ↦ (0, x.0, ground (arith, rw here at e), here, λ j y at lt. absurd (omega arith))
  | inr other ↦
      let (k, name, at, p, before) = first_found entries yx tx found (rw other at e) in
      (suc k, name, at, p, earlier other k before)
]
  where
    earlier :
        has_prefix x.0 yx ≡ false
        → (k : ℕ)
        → ((j : ℕ) (e : Bytes × Cmd)
            → get_elem? entries j ≡ some e
            → j < k
            → has_prefix e.0 yx ≡ false)
        → (j : ℕ) (y : Bytes × Cmd) → get_elem? (x ∷ entries) j ≡ some y
        → j < suc k
        → has_prefix y.0 yx ≡ false
    earlier other k before zero y at lt =
        subst (λ (z : Bytes × Cmd). has_prefix z.0 yx ≡ false) (some_inj.0 at) other
    earlier other k before (suc j) y at lt = before j y at (omega arith)

only_delvote :
    (k : ℕ) (name : Bytes)
    → get_elem? commands k ≡ some (name, delvote)
    → (k ≡ 15) × (name ≡ codes "delvote")
only_delvote zero name e = ground arith
only_delvote (suc zero) name e = ground arith
only_delvote (suc (suc zero)) name e = ground arith
only_delvote (suc (suc (suc zero))) name e = ground arith
only_delvote (suc (suc (suc (suc zero)))) name e = ground arith
only_delvote (suc (suc (suc (suc (suc zero))))) name e = ground arith
only_delvote (suc (suc (suc (suc (suc (suc zero)))))) name e = ground arith
only_delvote (suc (suc (suc (suc (suc (suc (suc zero))))))) name e = ground arith
only_delvote (suc (suc (suc (suc (suc (suc (suc (suc zero)))))))) name e = ground arith
only_delvote (suc (suc (suc (suc (suc (suc (suc (suc (suc zero))))))))) name e = ground arith
only_delvote (suc (suc (suc (suc (suc (suc (suc (suc (suc (suc zero)))))))))) name e = ground arith
only_delvote (suc (suc (suc (suc (suc (suc (suc (suc (suc (suc (suc zero))))))))))) name e =
    ground arith
only_delvote (suc (suc (suc (suc (suc (suc (suc (suc (suc (suc (suc (suc zero)))))))))))) name e =
    ground arith
only_delvote (suc (suc (suc (suc (suc (suc (suc (suc (suc (suc (suc (suc (suc zero))))))))))))) name
      e =
    ground arith
only_delvote
      (suc (suc (suc (suc (suc (suc (suc (suc (suc (suc (suc (suc (suc (suc zero)))))))))))))) name
      e =
    ground arith
only_delvote
      (suc (suc (suc (suc (suc (suc (suc (suc (suc (suc (suc (suc (suc (suc (suc zero)))))))))))))))
      name e =
    ground arith
only_delvote
      (suc
        (suc (suc (suc (suc (suc (suc (suc (suc (suc (suc (suc (suc (suc (suc (suc k))))))))))))))))
      name e =
    ground arith

no_delvote_at :
    (tx : Bytes) (word : Option Bytes) (rest : Bytes)
    → (elim word [ none ↦ none | some yx ↦ match_cmd commands yx tx ]) ≢ some (delvote, rest)
no_delvote_at tx none rest e = ground arith
no_delvote_at tx (some yx) rest e =
    let (k, name, at, p, before) = first_found commands yx tx (delvote, rest) e in
    let (k15, named) = only_delvote k name at in
    let del = del-delvote yx (rw named at p) in
    let none_del = before 12 (codes "del", delete) refl (omega arith) in ground arith

-- No text is ever read as the vote on a deletion: its name begins with the name `del`, which is tried
-- before it.
pub find_cmd-ne_delvote : (tx rest : Bytes) → find_cmd tx ≢ some (delvote, rest)
unfolding find_cmd
find_cmd-ne_delvote tx rest = no_delvote_at tx (strtolower_cp tx 9) rest
