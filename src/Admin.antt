-- ===== src/Admin.antt =====
-- The entry of the administration module (modules/003_admin/admin.c): which command a message is,
-- who may run it, and what is run.
pub mod Parse
pub mod Gate
pub mod Runs
pub mod Exec
pub mod Privilege
mod Tests
use gnuweeb_bot.Base.{
  ℕ, ◌+◌, ◌-◌, ◌≤◌, ◌≡◌, Bool, true, false, ◌&&◌, ◌||◌, not, Option, none, some, List, [], ◌∷◌,
  zero, suc, leb, ◌==◌, if◌then◌else◌, Bytes, codes, has_prefix, drop, length, Outcome, ok, crash,
  aborted, ◌>>=◌, ◌>>◌, get_or,
}
use gnuweeb_bot.Server.State.{Ret, success, fail, Sys, done, failed}

-- `mod_cmd_t`
pub data Cmd : Type 0 where
  nop ban sban unban kick skick warn mute tmute unmute pin unpin delete report delvote : Cmd

-- Whether the command is in ADMIN_CMD_BITS.
unfoldable pub is_admin_cmd : Cmd → Bool
is_admin_cmd nop = false
is_admin_cmd report = false
is_admin_cmd delvote = false
is_admin_cmd cmd = true

abbrev pub eperm : ℕ
eperm = 1

abbrev pub ecanceled : ℕ
ecanceled = 125

-- What the module asks of an event: the text, who sent it, and who sent the message it replies to.
pub record Message : Type 0 where
  pub text : Option Bytes
  pub user_id : ℕ
  pub reply_to : Option ℕ

-- What the request for the administrators of the chat answers: their user ids, or an error; and what
-- the function that carries out a command does at the user and the reason: it returns, or crashes.
pub record AdminEnv : Type 0 where
  pub admins : Sys (List ℕ)
  pub exec : Cmd → ℕ → Option Bytes → Outcome Ret

-- What the module does to the chat: `send_eperm`, `send_reply` with the error of the lookup, and the
-- call of a command's function at `target_uid` and `reason`.
pub data Effect : Type 0 where
  deny : Effect
  report_error : ℕ → Effect
  run : Cmd → ℕ → Option Bytes → Effect

abbrev pub sudoers : List ℕ
sudoers = 133862899 ∷ 243692601 ∷ 701123895 ∷ 1213668471 ∷ []

-- The loops that look for a user id, over `sudoers` and over the administrators.
unfoldable pub has_id : List ℕ → ℕ → Bool
has_id [] u = false
has_id (id ∷ ids) u = if id == u then true else has_id ids u

unfoldable pub check_is_sudoer : ℕ → Bool
unfolding has_id
check_is_sudoer u = has_id sudoers u

-- What is done with the answer to the request, and the return value; the error is sent to the chat
-- unless it is EPERM.
unfoldable pub looked_up : Sys (List ℕ) → ℕ → List Effect × Ret
unfolding has_id
looked_up (done ids) u = ([], (if has_id ids u then success else fail eperm))
looked_up (failed e) u = ((if e == eperm then [] else report_error e ∷ []), fail e)

unfoldable pub lookup_tg_privilege : AdminEnv → ℕ → List Effect × Ret
unfolding looked_up
lookup_tg_privilege env u = looked_up env.admins u

-- The effects follow those of the lookup.
unfoldable pub verdict : List Effect → Ret → List Effect × Bool
verdict effects success = (effects, true)
verdict effects (fail e) = ((if e == eperm then deny ∷ effects else effects), false)

unfoldable pub is_privileged_user : AdminEnv → ℕ → List Effect × Bool
unfolding check_is_sudoer lookup_tg_privilege verdict
is_privileged_user env u =
    if check_is_sudoer u
    then ([], true)
    else (let (effects, ret) = lookup_tg_privilege env u in verdict effects ret)

unfoldable pub is_ws : ℕ → Bool
is_ws c = c == b' ' || c == b'\n' || c == b'\t' || c == b'\r'

-- A byte as `strtolower_cp` stores it.
unfoldable pub to_lower : ℕ → ℕ
to_lower c = if leb b'A' c && leb c b'Z' then c + 32 else c

-- The text stored at `dest`, or `none` where the first word does not fit in `dst_len` bytes.
unfoldable pub strtolower_cp : Bytes → ℕ → Option Bytes
unfolding is_ws to_lower
strtolower_cp [] n = some []
strtolower_cp (c ∷ src) n =
    let rest = strtolower_cp src (n - 1) in
    if c == 0 || is_ws c
    then some []
    else if leb n 1
    then none
    else elim rest [ none ↦ none | some dest ↦ some (to_lower c ∷ dest) ]

-- `*tx`
abbrev pub head_byte : Bytes → ℕ
head_byte tx = get_or tx 0 0

-- The test behind `@admin`, in any case, and an `s`.
unfoldable pub ends_mention : Bytes → Bool
unfolding is_ws
ends_mention tx =
    let tx' = if head_byte tx == b's' then drop 1 tx else tx in
    head_byte tx' == 0 || is_ws (head_byte tx')

unfoldable pub is_an_admin_mention : Bytes → Bool
unfolding strtolower_cp ends_mention
is_an_admin_mention tx =
    if not (head_byte tx == b'@') then false else elim (strtolower_cp (drop 1 tx) 9) [
      | none ↦ false
      | some yx ↦ if has_prefix (codes "admin") yx then ends_mention (drop 6 tx) else false
    ]

-- The commands in the order in which the entry tries them.
abbrev pub commands : List (Bytes × Cmd)
commands =
    (codes "ban", ban)
    ∷ (codes "sban", sban)
    ∷ (codes "unban", unban)
    ∷ (codes "kick", kick)
    ∷ (codes "skick", skick)
    ∷ (codes "warn", warn)
    ∷ (codes "mute", mute)
    ∷ (codes "tmute", tmute)
    ∷ (codes "unmute", unmute)
    ∷ (codes "pin", pin)
    ∷ (codes "unpin", unpin)
    ∷ (codes "delete", delete)
    ∷ (codes "del", delete)
    ∷ (codes "report", report)
    ∷ (codes "admin", report)
    ∷ (codes "delvote", delvote)
    ∷ []

-- The command whose name the text `yx` begins with, and `tx` behind the name.
unfoldable pub match_cmd : List (Bytes × Cmd) → Bytes → Bytes → Option (Cmd × Bytes)
match_cmd [] yx tx = none
match_cmd (entry ∷ entries) yx tx =
    let rest = match_cmd entries yx tx in
    if has_prefix entry.0 yx then some (entry.1, drop (length entry.0) tx) else rest

-- The command of the text behind the first byte.
unfoldable pub find_cmd : Bytes → Option (Cmd × Bytes)
unfolding match_cmd strtolower_cp
find_cmd tx = elim (strtolower_cp tx 9) [ none ↦ none | some yx ↦ match_cmd commands yx tx ]

unfoldable pub skip_ws : Bytes → Bytes
unfolding is_ws
skip_ws [] = []
skip_ws (c ∷ tx) = let rest = skip_ws tx in if is_ws c then rest else c ∷ tx

abbrev pub Result : Type 0
Result = Outcome (List Effect × Ret)

abbrev pub quit : Result
quit = ok ([], fail ecanceled)

-- The `switch` at the end.
unfoldable pub dispatch : AdminEnv → Cmd → ℕ → Option Bytes → Result
dispatch env nop target reason = crash aborted
dispatch env warn target reason = quit
dispatch env tmute target reason = quit
dispatch env delvote target reason = quit
dispatch env cmd target reason =
    env.exec cmd target reason >>= λ ret. ok (run cmd target reason ∷ [], ret)

-- From `out_run_priv_chk` on.
unfoldable pub run_priv_chk : AdminEnv → Message → Cmd → ℕ → Option Bytes → Result
unfolding dispatch is_privileged_user is_admin_cmd
run_priv_chk env msg cmd target reason =
    if is_admin_cmd cmd
    then (let (effects, allowed) = is_privileged_user env msg.user_id in
        if allowed then dispatch env cmd target reason else ok (effects, success))
    else dispatch env cmd target reason

abbrev pub is_report : Cmd → Bool
is_report report = true
is_report cmd = false

-- From `out_run` on, at the user replied to and the reason.
unfoldable pub out_run : AdminEnv → Message → Cmd → Option ℕ → Option Bytes → Result
unfolding run_priv_chk
out_run env msg cmd (some target) reason = run_priv_chk env msg cmd target reason
out_run env msg cmd none (some reason) = quit
out_run env msg cmd none none = if is_report cmd then run_priv_chk env msg cmd 0 none else quit

abbrev pub is_some {ℓ} : {A : Type ℓ} → Option A → Bool
is_some (some a) = true
is_some none = false

-- Behind the name of the command.
unfoldable pub after_name : AdminEnv → Message → Cmd → Bytes → Result
unfolding out_run skip_ws is_ws
after_name env msg cmd tx =
    if head_byte tx == 0
    then (if not (is_report cmd) && not (is_some msg.reply_to)
        then quit
        else out_run env msg cmd msg.reply_to none)
    else if is_ws (head_byte tx)
    then out_run env msg cmd msg.reply_to (some (skip_ws tx))
    else quit

abbrev pub is_sigil : ℕ → Bool
is_sigil c = c == b'!' || c == b'/' || c == b'.' || c == b'~'

-- At the command found.
unfoldable pub entry_found : AdminEnv → Message → Option (Cmd × Bytes) → Result
unfolding after_name
entry_found env msg none = quit
entry_found env msg (some found) = after_name env msg found.0 found.1

-- The entry at the text of the message.
unfoldable pub entry_text : AdminEnv → Message → Option Bytes → Result
unfolding entry_found run_priv_chk find_cmd is_an_admin_mention
entry_text env msg none = quit
entry_text env msg (some tx) =
    if not (is_sigil (head_byte tx))
    then (if is_an_admin_mention tx then run_priv_chk env msg report 0 none else quit)
    else entry_found env msg (find_cmd (drop 1 tx))

unfoldable pub entry : AdminEnv → Message → Result
unfolding entry_text
entry env msg = entry_text env msg msg.text
