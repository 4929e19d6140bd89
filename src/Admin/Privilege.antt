-- ===== src/Admin/Privilege.antt =====
-- The privilege of a user, from what the API answers about the administrators of the chat
-- (`lookup_tg_privilege` of modules/003_admin/admin.c).
use gnuweeb_bot.Base.{
  ℕ, ◌≡◌, ◌≢◌, ◌∙◌, ap, Outcome, ok, crash, ◌⊎◌, inl, inr, true, none, some, List, arith,
}
use gnuweeb_bot.Server.State.{Sys, done, failed, einval}
use gnuweeb_bot.Tg.Json.{JsonApi}
use gnuweeb_bot.Tga.Admins.{ChatMember, parse_tga_admins, read_ids}
use gnuweeb_bot.Tga.Admins.Listed.{
  AdminOf, Answered, stopped, refused, listed, parse_tga_admins-Answered,
}
use gnuweeb_bot.Admin.{AdminEnv, is_privileged_user, sudoers}
use gnuweeb_bot.Admin.Gate.{Listed, Privileged, is_privileged_user-Sound}
use gnuweeb_bot.Admin.Runs.{Listed-has_id}
use gnuweeb_bot.Admin.Exec.{Answer, errno, json}

-- The ids over which the loop of `lookup_tg_privilege` runs, or its error before the loop.
unfoldable pub parsed_ids : Outcome (Sys (List ChatMember × ℕ)) → Outcome (Sys (List ℕ))
parsed_ids (ok (done (admins, n))) = ok (done (read_ids admins n))
parsed_ids (ok (failed e)) = ok (failed e)
parsed_ids (crash x) = crash x

unfoldable pub answered_ids : (api : JsonApi) → Answer api → Outcome (Sys (List ℕ))
unfolding parsed_ids
answered_ids api (errno e) = ok (failed e)
answered_ids api (json none) = ok (failed einval)
answered_ids api (json (some obj)) = parsed_ids (parse_tga_admins api obj)

-- The users that the answer names as administrators.
abbrev pub Named : (api : JsonApi) → Answer api → ℕ → Type 0
Named api (errno e) u = ⊥
Named api (json none) u = ⊥
Named api (json (some obj)) u = AdminOf api obj u

parsed-Named :
    (api : JsonApi) (obj : api.Json) (r : Outcome (Sys (List ChatMember × ℕ))) (ids : List ℕ)
    (u : ℕ)
    → Answered api obj r
    → u ≢ 0
    → parsed_ids r ≡ ok (done ids)
    → Listed ids u
    → AdminOf api obj u
unfolding parsed_ids
parsed-Named api obj _ ids u (stopped res at other) ne eq listed_at = ground arith
parsed-Named api obj _ ids u (refused e why) ne eq at = ground arith
parsed-Named api obj _ ids u (listed admins n size iff) ne eq (k, at) =
    (iff u ne).0 (Listed-has_id (read_ids admins n) u k (rw (ids_of eq) at))
  where
    ids_of : {xs ys : List ℕ} → ok (done xs) ≡ ok (done ys) → xs ≡ ys
    ids_of e = cc

answered-Named :
    (api : JsonApi) (a : Answer api) (ids : List ℕ) (u : ℕ)
    → u ≢ 0
    → answered_ids api a ≡ ok (done ids)
    → Listed ids u
    → Named api a u
unfolding answered_ids
answered-Named api (errno e) ids u ne eq at = ground arith
answered-Named api (json none) ids u ne eq at = ground arith
answered-Named api (json (some obj)) ids u ne eq at =
    parsed-Named api obj (parse_tga_admins api obj) ids u (parse_tga_admins-Answered api obj) ne eq
      at

-- A user whose id is not 0 passes the check only as one of the fixed list, or where the answer about
-- the chat is JSON with a true `ok` that names the user as an administrator.
pub is_privileged_user-Named :
    (api : JsonApi) (a : Answer api) (env : AdminEnv) (u : ℕ)
    → answered_ids api a ≡ ok env.admins
    → u ≢ 0
    → (is_privileged_user env u).1 ≡ true
    → Listed sudoers u ⊎ Named api a u
unfolding Privileged
is_privileged_user-Named api a env u e ne h = elim ((is_privileged_user-Sound env u).0 h) [
  | inl fixed ↦ inl fixed
  | inr (ids, answer, at) ↦ inr (answered-Named api a ids u ne (e ∙ ap ok answer) at)
]
