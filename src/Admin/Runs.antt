-- ===== src/Admin/Runs.antt =====
-- What a well-formed command does.
use gnuweeb_bot.Base.{
  none, codes, Outcome, Fault, crash, ◌>>=◌, ℕ, zero, suc, ◌≡◌, ◌<◌, inl, inr, Bool-cases, refl,
  ◌∙◌, true, false, Option, some, List, [], ◌∷◌, ◌++◌, get_elem?, Bytes, ok, arith, All, map,
}
use gnuweeb_bot.Server.State.{Ret, success, fail, done}
use gnuweeb_bot.Admin.{
  ban, sban, unban, kick, skick, warn, mute, tmute, unmute, pin, unpin, delete, report, Result, run,
  ecanceled, is_report, Cmd, Message, AdminEnv, deny, is_privileged_user, verdict, looked_up,
  check_is_sudoer, has_id, sudoers, is_admin_cmd, lookup_tg_privilege, run_priv_chk, out_run,
  after_name, entry_found, entry_text, entry, commands, to_lower, is_ws, is_sigil, skip_ws,
}
use gnuweeb_bot.Admin.Parse.{IsWordByte, Tail, bare, spaced, find_cmd-word}
use gnuweeb_bot.Admin.Gate.{Listed, Privileged, has_id-Listed}

-- A user is found exactly where the list has the id.
pub Listed-has_id : (ids : List ℕ) (u k : ℕ) → get_elem? ids k ≡ some u → has_id ids u ≡ true
unfolding has_id
Listed-has_id [] u k at = ground arith
Listed-has_id (id ∷ ids) u zero at = ground arith
Listed-has_id (id ∷ ids) u (suc k) at = ground (arith, Listed-has_id ids u k at)

has_id-none : (ids : List ℕ) (u : ℕ) → ¬ Listed ids u → has_id ids u ≡ false
has_id-none ids u h = elim (Bool-cases (has_id ids u)) [
  | inl found ↦ absurd (h (has_id-Listed ids u found))
  | inr missing ↦ missing
]

pub Privileged-passes :
    (env : AdminEnv) (u : ℕ) → Privileged env u → (is_privileged_user env u).1 ≡ true
unfolding Privileged is_privileged_user check_is_sudoer lookup_tg_privilege looked_up verdict
Privileged-passes env u (inl (k, at)) = rw (Listed-has_id sudoers u k at) refl
Privileged-passes env u (inr (ids, answer, (k, at))) =
    let found = Listed-has_id ids u k at in
    elim (Bool-cases (has_id sudoers u)) [
      | inl sudo ↦ rw sudo refl
      | inr other ↦ rw (other, answer, found) refl
    ]

-- The commands by their names.
pub data Spells : Bytes → Cmd → Type 0 where
  spells_ban : Spells (codes "ban") ban
  spells_sban : Spells (codes "sban") sban
  spells_unban : Spells (codes "unban") unban
  spells_kick : Spells (codes "kick") kick
  spells_skick : Spells (codes "skick") skick
  spells_warn : Spells (codes "warn") warn
  spells_mute : Spells (codes "mute") mute
  spells_tmute : Spells (codes "tmute") tmute
  spells_unmute : Spells (codes "unmute") unmute
  spells_pin : Spells (codes "pin") pin
  spells_unpin : Spells (codes "unpin") unpin
  spells_delete : Spells (codes "delete") delete
  spells_del : Spells (codes "del") delete
  spells_report : Spells (codes "report") report
  spells_admin : Spells (codes "admin") report

-- Where a name stands in the list, which does not come to `delvote`.
abbrev Stands : Bytes → Cmd → Type 0
Stands w cmd = (k : ℕ) × (get_elem? commands k ≡ some (w, cmd)) × (k < 15)

Spells-Stands : (w : Bytes) (cmd : Cmd) → Spells w cmd → Stands w cmd
Spells-Stands _ _ spells_ban = (0, refl, omega arith)
Spells-Stands _ _ spells_sban = (1, refl, omega arith)
Spells-Stands _ _ spells_unban = (2, refl, omega arith)
Spells-Stands _ _ spells_kick = (3, refl, omega arith)
Spells-Stands _ _ spells_skick = (4, refl, omega arith)
Spells-Stands _ _ spells_warn = (5, refl, omega arith)
Spells-Stands _ _ spells_mute = (6, refl, omega arith)
Spells-Stands _ _ spells_tmute = (7, refl, omega arith)
Spells-Stands _ _ spells_unmute = (8, refl, omega arith)
Spells-Stands _ _ spells_pin = (9, refl, omega arith)
Spells-Stands _ _ spells_unpin = (10, refl, omega arith)
Spells-Stands _ _ spells_delete = (11, refl, omega arith)
Spells-Stands _ _ spells_del = (12, refl, omega arith)
Spells-Stands _ _ spells_report = (13, refl, omega arith)
Spells-Stands _ _ spells_admin = (14, refl, omega arith)

-- What comes of a command that may be run, at a user and a reason: warnings and mutes for a time do
-- nothing, for another the function of the command is called, and its value is returned.
abbrev pub Carried : AdminEnv → Cmd → ℕ → Option Bytes → Result → Type 0
Carried env warn target reason r = r ≡ ok ([], fail ecanceled)
Carried env tmute target reason r = r ≡ ok ([], fail ecanceled)
Carried env cmd target reason r =
    ((ret : Ret) → env.exec cmd target reason ≡ ok ret → r ≡ ok (run cmd target reason ∷ [], ret))
    × ((x : Fault) → env.exec cmd target reason ≡ crash x → r ≡ crash x)

abbrev run_with : Cmd → ℕ → Option Bytes → Outcome Ret → Result
run_with cmd target reason m = m >>= λ ret. ok (run cmd target reason ∷ [], ret)

-- The reason that stands behind the name, white space before it left out.
abbrev pub reason_of : Bytes → Option Bytes
reason_of [] = none
reason_of (sp ∷ rest) = some (skip_ws rest)

module _ (env : AdminEnv) (sigil : ℕ) (w tail : Bytes) (cmd : Cmd) (user target : ℕ)
    (known : Spells (map to_lower w) cmd) (word : All IsWordByte w) (behind : Tail tail)
    (sig : is_sigil sigil ≡ true) where
  -- The message: the sigil, the word and what stands behind it, in reply to a message of `target`.
  abbrev pub spelled : Message
  spelled = record { text = some (sigil ∷ w ++ tail); user_id = user; reply_to = some target }

  found_checked :
      Tail tail
      → entry_found env spelled (some (cmd, tail))
        ≡ run_priv_chk env spelled cmd target (reason_of tail)
  unfolding entry_found after_name out_run is_ws skip_ws
  found_checked t = found tail t
    where
      found :
          (s : Bytes)
          → Tail s
          → entry_found env spelled (some (cmd, s))
            ≡ run_priv_chk env spelled cmd target (reason_of s)
      found _ bare = elim (Bool-cases (is_report cmd)) [
        | inl rep ↦ rw rep refl
        | inr other ↦ rw other refl
      ]
      found _ (spaced sp rest ws) = ground arith

  spelled_checked : entry env spelled ≡ run_priv_chk env spelled cmd target (reason_of tail)
  unfolding entry entry_text
  spelled_checked =
      let (k, at, lt) = Spells-Stands (map to_lower w) cmd known in
      rw (sig, find_cmd-word w tail k cmd at lt word behind) (found_checked behind)

  -- In reply to a message, a command that needs the privilege, its name in any case behind one of the
  -- four signs and before a white space or the end, is denied to a user who has none, where the lookup
  -- succeeds: nothing is done but to say so.
  pub command_denied :
      (ids : List ℕ)
      → is_admin_cmd cmd ≡ true
      → env.admins ≡ done ids
      → ¬ Listed sudoers user
      → ¬ Listed ids user
      → entry env spelled ≡ ok (deny ∷ [], success)
  unfolding run_priv_chk is_privileged_user check_is_sudoer lookup_tg_privilege looked_up verdict
  command_denied ids adm answer no_sudo no_admin =
      let fixed = has_id-none sudoers user no_sudo in
      let looked = has_id-none ids user no_admin in
      spelled_checked ∙ rw (adm, fixed, answer, looked) refl
