-- ===== src/Tga/Admins/Listed.antt =====
-- The administrators that the parser finds are the users that the answer names.
use gnuweeb_bot.Base.{
  ℕ, zero, suc, ◌+◌, ◌-◌, ◌≤◌, ◌<◌, ◌≡◌, ◌≢◌, ◌∙◌, refl, sym, ap, Outcome, ok, crash, aborted, ◌↔◌,
  ◌⊎◌, inl, inr, true, false, Bool-cases, some, Option-cases, List, [], ◌∷◌, ◌++◌, map, length,
  length-append, length-replicate, take, replicate, arith, ◌==◌, ==_iff, codes,
}
use mathlib.Core.Option.{some-injective}
use native.Mathlib.Decide.{ℕ_discrete}
use gnuweeb_bot.Server.State.{Sys, done, failed, einval}
use gnuweeb_bot.Admin.{has_id}
use gnuweeb_bot.Tg.Json.{JsonApi}
use gnuweeb_bot.Tga.Response.{enomem}
use gnuweeb_bot.Tga.Post.{ebadmsg}
use gnuweeb_bot.Tga.Admins.{
  ChatMember, zero_member, found, make_member, parse_admin, filled_admins, parse_result,
  parse_tga_admins, read_ids,
}

abbrev id_of : ChatMember → ℕ
id_of m = m.user.id

abbrev padding : ℕ → List ChatMember
padding m = replicate m zero_member

no_zero : (n m u : ℕ) → u ≢ 0 → has_id (map id_of (take n (padding m))) u ≡ false
unfolding has_id
no_zero zero m u ne = refl
no_zero (suc n) zero u ne = refl
no_zero (suc n) (suc m) u ne = ground (arith, no_zero n m u ne)

-- The entries behind those that are filled have the id 0.
has_id-padding :
    (xs : List ChatMember) (n m u : ℕ)
    → u ≢ 0
    → length xs ≤ n
    → has_id (map id_of (take n (xs ++ padding m))) u ≡ has_id (map id_of xs) u
unfolding has_id
has_id-padding [] n m u ne h = no_zero n m u ne
has_id-padding (x ∷ xs) zero m u ne h = absurd (omega arith)
has_id-padding (x ∷ xs) (suc n) m u ne h = rw (has_id-padding xs n m u ne (omega arith)) refl

module _ (api : JsonApi) where
  open api use {
    Json, is_null, get_uint64, get_boolean, is_array, array_length, array_get_idx, calloc_ok,
  }

  -- The element of an array is an object whose user has the id.
  pub record Names (sub : Json) (u : ℕ) : Type 0 where
    pub there : is_null sub ≡ false
    pub user : Json
    pub user_at : found api sub (codes "user") ≡ some user
    pub id : Json
    pub id_at : found api user (codes "id") ≡ some id
    pub same : get_uint64 id ≡ u

  parse_admin-some :
      (sub : Json) (u : ℕ)
      → Names sub u
      → (m : ChatMember) × (parse_admin api sub ≡ some m) × (m.user.id ≡ u)
  unfolding parse_admin make_member
  parse_admin-some sub u names =
      simp (names.there, names.user_at, names.id_at) (_, refl, names.same)

  parse_admin-Names :
      (sub : Json) (m : ChatMember) → parse_admin api sub ≡ some m → Names sub m.user.id
  unfolding parse_admin make_member
  parse_admin-Names sub m e = elim (Bool-cases (is_null sub)) [
    | inl null ↦ absurd (ground (arith, simp null at e))
    | inr there ↦ elim (Option-cases (found api sub (codes "user"))) [
      | inl missing ↦ absurd (ground (arith, simp (there, missing) at e))
      | inr (user, user_at) ↦ elim (Option-cases (found api user (codes "id"))) [
        | inl missing ↦ absurd (ground (arith, simp (there, user_at, missing) at e))
        | inr (id, id_at) ↦ record {
          there = there;
          user = user;
          user_at = user_at;
          id = id;
          id_at = id_at;
          same = ap id_of (some-injective _ _ (simp (there, user_at, id_at) at e));
        }
      ]
    ]
  ]

  length-filled_admins-le : (res : Json) (n i : ℕ) → length (filled_admins api res n i) ≤ n
  unfolding filled_admins
  length-filled_admins-le res zero i = omega arith
  length-filled_admins-le res (suc n) i = ground (arith, length-filled_admins-le res n (suc i))

  -- An index from `i` on, `n` of them, at which the user is named.
  abbrev Between : Json → ℕ → ℕ → ℕ → Type 0
  Between res n i u = (k : ℕ) × (i ≤ k) × (k < i + n) × Names (array_get_idx res k) u

  filled_admins-Between :
      (res : Json) (n i u : ℕ)
      → has_id (map id_of (filled_admins api res n i)) u ≡ true
      → Between res n i u
  unfolding filled_admins has_id
  filled_admins-Between res zero i u h = ground arith
  filled_admins-Between res (suc n) i u h =
      let later : has_id (map id_of (filled_admins api res n (suc i))) u ≡ true
          → Between res (suc n) i u =
        λ t.
          let (k, lo, hi, names) = filled_admins-Between res n (suc i) u t in
          (k, omega arith, omega arith, names) in
      elim (Option-cases (parse_admin api (array_get_idx res i))) [
        | inl skipped ↦ later (rw (has_id, skipped) at h)
        | inr (m, here) ↦ elim (Bool-cases (m.user.id == u)) [
          | inl same ↦ (
            i,
            omega arith,
            omega arith,
            rw ((==_iff _ _).0 same) at (parse_admin-Names (array_get_idx res i) m here),
          )
          | inr other ↦ later (rw other at (rw (has_id, here) at h))
        ]
      ]

  Between-filled_admins :
      (res : Json) (n i u : ℕ)
      → Between res n i u
      → has_id (map id_of (filled_admins api res n i)) u ≡ true
  unfolding filled_admins has_id
  Between-filled_admins res zero i u (k, lo, hi, names) = absurd (omega arith)
  Between-filled_admins res (suc n) i u (k, lo, hi, names) = elim (ℕ_discrete k i) [
    | yes here ↦
        let (m, run, same) = parse_admin-some (array_get_idx res i) u (rw here at names) in
        rw (has_id, run) (ground (arith, same))
    | no further ↦
        let rest = Between-filled_admins res n (suc i) u (k, omega arith, omega arith, names) in
        elim (Option-cases (parse_admin api (array_get_idx res i))) [
          | inl skipped ↦ rw (has_id, skipped) rest
          | inr (m, run) ↦ rw (has_id, run) (ground (arith, rest))
        ]
  ]

  -- The answer is a success, and an element of its array has a user of the id.
  pub record AdminOf (obj : Json) (u : ℕ) : Type 0 where
    pub flag : Json
    pub flag_at : found api obj (codes "ok") ≡ some flag
    pub success : get_boolean flag ≡ true
    pub result : Json
    pub result_at : found api obj (codes "result") ≡ some result
    pub array : is_array result ≡ true
    pub index : ℕ
    pub inside : index < array_length result
    pub names : Names (array_get_idx result index) u

  -- What comes of an answer: an error, or an array with one entry more than the number beside it,
  -- whose ids other than 0 are those of the users that the answer names; or the end of the program,
  -- at a result that is no array.
  pub data Answered (obj : Json) : Outcome (Sys (List ChatMember × ℕ)) → Type 0 where
    stopped :
        (res : Json)
        → found api obj (codes "result") ≡ some res
        → is_array res ≡ false
        → Answered obj (crash aborted)
    refused : (e : ℕ) → (e ≡ einval) ⊎ (e ≡ ebadmsg) ⊎ (e ≡ enomem) → Answered obj (ok (failed e))
    listed :
        (admins : List ChatMember) (n : ℕ)
        → length admins ≡ n + 1
        → ((u : ℕ) → u ≢ 0 → (has_id (read_ids admins n) u ≡ true) ↔ AdminOf obj u)
        → Answered obj (ok (done (admins, n)))

  parse_result-Answered :
      (obj flag res : Json)
      → found api obj (codes "ok") ≡ some flag
      → get_boolean flag ≡ true
      → found api obj (codes "result") ≡ some res
      → Answered obj (parse_result api res)
  unfolding parse_result read_ids
  parse_result-Answered obj flag res flag_at good res_at =
      let n = array_length res in
      let xs = filled_admins api res n 0 in
      let short : length xs ≤ n = length-filled_admins-le res n 0 in
      let pad = padding (n + 1 - length xs) in
      elim (Bool-cases (is_array res)) [
        | inr other ↦ rw other (stopped res res_at other)
        | inl arr ↦ elim (Bool-cases (calloc_ok res)) [
          | inr full ↦ rw (arr, full) (refused enomem (inr (inr refl)))
          | inl room ↦
              rw (arr, room)
                (listed (xs ++ pad) n
                  (omega (
                    arith,
                    short,
                    length-append xs pad,
                    length-replicate (n + 1 - length xs) zero_member,
                  ))
                  λ u ne. (
                    λ h.
                        let (k, lo, hi, names) =
                          filled_admins-Between res n 0 u
                            (sym (has_id-padding xs n (n + 1 - length xs) u ne short) ∙ h) in
                        record {
                          flag = flag;
                          flag_at = flag_at;
                          success = good;
                          result = res;
                          result_at = res_at;
                          array = arr;
                          index = k;
                          inside = omega arith;
                          names = names;
                        },
                    λ a.
                        let same : a.result ≡ res =
                          some-injective a.result res (sym a.result_at ∙ res_at) in
                        has_id-padding xs n (n + 1 - length xs) u ne short
                        ∙ Between-filled_admins res n 0 u (
                          a.index,
                          omega arith,
                          omega (arith, a.inside, ap array_length same),
                          rw same at a.names,
                        ),
                  ))
        ]
      ]

  -- Of whatever JSON the parser gets, it returns one of three errors or an array that the loops read
  -- inside of, and a user whose id is not 0 is found in it exactly where `ok` is true in the JSON and
  -- an element of its `result` has a user of that id. The program ends, by an assertion of json-c,
  -- only where `result` is no array.
  pub parse_tga_admins-Answered : (obj : Json) → Answered obj (parse_tga_admins api obj)
  unfolding parse_tga_admins
  parse_tga_admins-Answered obj = elim (Option-cases (found api obj (codes "ok"))) [
    | inl missing ↦ rw (parse_tga_admins, missing) (refused einval (inl refl))
    | inr (flag, flag_at) ↦ elim (Bool-cases (get_boolean flag)) [
      | inr bad ↦ rw (parse_tga_admins, flag_at, bad) (refused ebadmsg (inr (inl refl)))
      | inl good ↦ elim (Option-cases (found api obj (codes "result"))) [
        | inl missing ↦ rw (parse_tga_admins, flag_at, good, missing) (refused einval (inl refl))
        | inr (res, res_at) ↦
            rw (parse_tga_admins, flag_at, good, res_at)
              (parse_result-Answered obj flag res flag_at good res_at)
      ]
    ]
  ]
