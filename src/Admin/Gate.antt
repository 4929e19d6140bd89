-- ===== src/Admin/Gate.antt =====
-- Who may run the commands of the administration module.
use gnuweeb_bot.Base.{
  Outcome, Fault, crash, ◌>>=◌, ℕ, suc, ◌≡◌, ◌≢◌, refl, ◌⊎◌, inl, inr, Bool, true, false, Option,
  none, some, List, [], ◌∷◌, get_elem?, ◌==◌, if◌then◌else◌, Bytes, ok, arith, All, Bool-cases,
  has_prefix, drop, not,
}
use gnuweeb_bot.Server.State.{Ret, success, Sys, done, failed}
use gnuweeb_bot.Admin.{
  Cmd, nop, ban, sban, unban, kick, skick, warn, mute, tmute, unmute, pin, unpin, delete, report,
  delvote, Message, AdminEnv, Effect, deny, report_error, run, Result, is_admin_cmd, sudoers,
  has_id, check_is_sudoer, looked_up, verdict, lookup_tg_privilege, is_privileged_user, entry_found,
  dispatch, run_priv_chk, out_run, after_name, entry_text, entry, find_cmd, match_cmd, commands,
  is_an_admin_mention, is_report, strtolower_cp, eperm, quit, head_byte, is_sigil, skip_ws,
}

-- The user's id stands in the list.
abbrev pub Listed : List ℕ → ℕ → Type 0
Listed ids u = (k : ℕ) × (get_elem? ids k ≡ some u)

-- The user is one of the fixed list, or an administrator of the chat.
unfoldable pub Privileged : AdminEnv → ℕ → Type 0
Privileged env u = Listed sudoers u ⊎ ((ids : List ℕ) × (env.admins ≡ done ids) × Listed ids u)

pub has_id-Listed : (ids : List ℕ) (u : ℕ) → has_id ids u ≡ true → Listed ids u
unfolding has_id
has_id-Listed [] u h = ground arith
has_id-Listed (id ∷ ids) u h = elim (Bool-cases (id == u)) [
  | inl same ↦ (0, ground arith)
  | inr other ↦ let (k, at) = has_id-Listed ids u (ground arith) in (suc k, at)
]

-- Everyone may report; another command may be run where the user is privileged.
abbrev pub Allowed : AdminEnv → ℕ → Effect → Type 0
Allowed env u deny = Unit
Allowed env u (report_error e) = Unit
Allowed env u (run cmd target reason) = cmd ≢ report → Privileged env u

-- It returns and does only what is allowed, or the function of a command crashes that the user may run.
pub data Gated (env : AdminEnv) (u : ℕ) : Result → Type 0 where
  returned :
      (effects : List Effect) (ret : Ret)
      → All (Allowed env u) effects
      → Gated env u (ok (effects, ret))
  command_crashed :
      (cmd : Cmd) (target : ℕ) (reason : Option Bytes) (x : Fault)
      → (cmd ≢ report → Privileged env u)
      → env.exec cmd target reason ≡ crash x
      → Gated env u (crash x)

quit-Gated : (env : AdminEnv) (u : ℕ) → Gated env u quit
quit-Gated env u = returned [] _ tt

-- The function of a command that the user may run.
ran-Gated :
    (env : AdminEnv) (u : ℕ) (cmd : Cmd) (target : ℕ) (reason : Option Bytes)
    → (cmd ≢ report → Privileged env u)
    → (m : Outcome Ret) → env.exec cmd target reason ≡ m
    → Gated env u (m >>= λ ret. ok (run cmd target reason ∷ [], ret))
ran-Gated env u cmd target reason may (ok ret) e =
    returned (run cmd target reason ∷ []) ret (may, tt)
ran-Gated env u cmd target reason may (crash x) e = command_crashed cmd target reason x may e

-- A command that is found is one of the list.
dispatch-Gated :
    (env : AdminEnv) (u : ℕ) (cmd : Cmd) (target : ℕ) (reason : Option Bytes)
    → cmd ≢ nop
    → (is_admin_cmd cmd ≡ true → Privileged env u)
    → Gated env u (dispatch env cmd target reason)
unfolding dispatch is_admin_cmd
dispatch-Gated env u nop target reason h p = absurd (h refl)
dispatch-Gated env u warn target reason h p = quit-Gated env u
dispatch-Gated env u tmute target reason h p = quit-Gated env u
dispatch-Gated env u delvote target reason h p = quit-Gated env u
dispatch-Gated env u ban target reason h p = ran-Gated env u ban target reason (λ _. p refl) _ refl
dispatch-Gated env u sban target reason h p =
    ran-Gated env u sban target reason (λ _. p refl) _ refl
dispatch-Gated env u unban target reason h p =
    ran-Gated env u unban target reason (λ _. p refl) _ refl
dispatch-Gated env u kick target reason h p =
    ran-Gated env u kick target reason (λ _. p refl) _ refl
dispatch-Gated env u skick target reason h p =
    ran-Gated env u skick target reason (λ _. p refl) _ refl
dispatch-Gated env u mute target reason h p =
    ran-Gated env u mute target reason (λ _. p refl) _ refl
dispatch-Gated env u unmute target reason h p =
    ran-Gated env u unmute target reason (λ _. p refl) _ refl
dispatch-Gated env u pin target reason h p = ran-Gated env u pin target reason (λ _. p refl) _ refl
dispatch-Gated env u unpin target reason h p =
    ran-Gated env u unpin target reason (λ _. p refl) _ refl
dispatch-Gated env u delete target reason h p =
    ran-Gated env u delete target reason (λ _. p refl) _ refl
dispatch-Gated env u report target reason h p =
    ran-Gated env u report target reason (λ other. absurd (other refl)) _ refl

-- What the check does, and that it lets only privileged users through.
abbrev Sound : AdminEnv → ℕ → List Effect × Bool → Type 0
Sound env u v = (v.1 ≡ true → Privileged env u) × All (Allowed env u) v.0

looked_up-Sound :
    (env : AdminEnv) (u : ℕ) (answer : Sys (List ℕ))
    → env.admins ≡ answer
    → Sound env u (verdict (looked_up answer u).0 (looked_up answer u).1)
unfolding looked_up verdict Privileged
looked_up-Sound env u (done ids) e = elim (Bool-cases (has_id ids u)) [
  | inl found ↦ rw found ((λ h. inr (ids, e, has_id-Listed ids u found)), tt)
  | inr missing ↦ rw missing ((λ h. ground arith), (tt, tt))
]
looked_up-Sound env u (failed err) e = elim (Bool-cases (err == eperm)) [
  | inl perm ↦ rw perm ((λ h. ground arith), (tt, tt))
  | inr other ↦ rw other ((λ h. ground arith), (tt, tt))
]

pub is_privileged_user-Sound : (env : AdminEnv) (u : ℕ) → Sound env u (is_privileged_user env u)
unfolding is_privileged_user check_is_sudoer lookup_tg_privilege Privileged
is_privileged_user-Sound env u = elim (Bool-cases (has_id sudoers u)) [
  | inl found ↦ rw found ((λ h. inl (has_id-Listed sudoers u found)), tt)
  | inr missing ↦ rw missing (looked_up-Sound env u env.admins refl)
]

run_priv_chk-Gated :
    (env : AdminEnv) (msg : Message) (cmd : Cmd) (target : ℕ) (reason : Option Bytes)
    → cmd ≢ nop
    → Gated env msg.user_id (run_priv_chk env msg cmd target reason)
unfolding run_priv_chk
run_priv_chk-Gated env msg cmd target reason h =
    let (sound, effects) = is_privileged_user-Sound env msg.user_id in
    elim (Bool-cases (is_admin_cmd cmd)) [
      | inr usr ↦ rw usr (dispatch-Gated env msg.user_id cmd target reason h (λ a. ground arith))
      | inl adm ↦ elim (Bool-cases (is_privileged_user env msg.user_id).1) [
        | inl passed ↦
            rw (adm, passed)
              (dispatch-Gated env msg.user_id cmd target reason h (λ _. sound passed))
        | inr refused ↦
            rw (adm, refused) (returned (is_privileged_user env msg.user_id).0 success effects)
      ]
    ]

out_run-Gated :
    (env : AdminEnv) (msg : Message) (cmd : Cmd) (reply : Option ℕ) (reason : Option Bytes)
    → cmd ≢ nop
    → Gated env msg.user_id (out_run env msg cmd reply reason)
unfolding out_run
out_run-Gated env msg cmd (some target) reason h = run_priv_chk-Gated env msg cmd target reason h
out_run-Gated env msg cmd none (some reason) h = quit-Gated env msg.user_id
out_run-Gated env msg cmd none none h = elim (Bool-cases (is_report cmd)) [
  | inl rep ↦ rw rep (run_priv_chk-Gated env msg cmd 0 none h)
  | inr other ↦ rw other (quit-Gated env msg.user_id)
]

if-Gated :
    (env : AdminEnv) (u : ℕ) (b : Bool) (x y : Result)
    → Gated env u x
    → Gated env u y
    → Gated env u (if b then x else y)
if-Gated env u true x y gx gy = gx
if-Gated env u false x y gx gy = gy

-- No name stands for `nop`.
match_cmd-ne_nop :
    (entries : List (Bytes × Cmd)) (yx tx : Bytes) (found : Cmd × Bytes)
    → All (λ (e : Bytes × Cmd). e.1 ≢ nop) entries
    → match_cmd entries yx tx ≡ some found
    → found.0 ≢ nop
unfolding match_cmd
match_cmd-ne_nop [] yx tx found h e = ground arith
match_cmd-ne_nop (x ∷ entries) yx tx found h e = elim (Bool-cases (has_prefix x.0 yx)) [
  | inl here ↦ λ q. h.0 (ground (arith, rw here at e))
  | inr other ↦ match_cmd-ne_nop entries yx tx found h.1 (rw other at e)
]

commands_ne_nop : All (λ (e : Bytes × Cmd). e.1 ≢ nop) commands
commands_ne_nop = ground arith

found_ne_nop :
    (tx : Bytes) (word : Option Bytes) (found : Cmd × Bytes)
    → (elim word [ none ↦ none | some yx ↦ match_cmd commands yx tx ]) ≡ some found
    → found.0 ≢ nop
found_ne_nop tx none found e = ground arith
found_ne_nop tx (some yx) found e = match_cmd-ne_nop commands yx tx found commands_ne_nop e

entry_found-Gated :
    (env : AdminEnv) (msg : Message) (answer : Option (Cmd × Bytes))
    → ((found : Cmd × Bytes) → answer ≡ some found → found.0 ≢ nop)
    → Gated env msg.user_id (entry_found env msg answer)
unfolding entry_found after_name
entry_found-Gated env msg none h = quit-Gated env msg.user_id
entry_found-Gated env msg (some (cmd, tx)) h =
    let ne = h (cmd, tx) refl in
    if-Gated env msg.user_id _ _ _
      (if-Gated env msg.user_id _ _ _ (quit-Gated env msg.user_id)
        (out_run-Gated env msg cmd msg.reply_to none ne))
      (if-Gated env msg.user_id _ _ _
        (out_run-Gated env msg cmd msg.reply_to (some (skip_ws tx)) ne)
        (quit-Gated env msg.user_id))

entry_text-Gated :
    (env : AdminEnv) (msg : Message) (text : Option Bytes)
    → Gated env msg.user_id (entry_text env msg text)
unfolding entry_text find_cmd
entry_text-Gated env msg none = quit-Gated env msg.user_id
entry_text-Gated env msg (some tx) =
    if-Gated env msg.user_id (not (is_sigil (head_byte tx))) _ _
      (if-Gated env msg.user_id (is_an_admin_mention tx) _ _
        (run_priv_chk-Gated env msg report 0 none (ground arith)) (quit-Gated env msg.user_id))
      (entry_found-Gated env msg (find_cmd (drop 1 tx))
        (λ found e. found_ne_nop (drop 1 tx) (strtolower_cp (drop 1 tx) 9) found e))

-- Whatever a message says, the entry returns without reaching its `abort`, unless the function of a
-- command that it calls crashes. It calls the function of a command other than a report only if the
-- sender is one of the sudoers or stands in the list of the chat's administrators that the lookup has
-- given.
pub entry-Gated : (env : AdminEnv) (msg : Message) → Gated env msg.user_id (entry env msg)
unfolding entry
entry-Gated env msg = entry_text-Gated env msg msg.text
