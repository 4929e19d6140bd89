-- ===== src/Argv.antt =====
-- The arguments of the program (argv.c), behind getopt_long: what it answers is a parameter.
mod Tests
use gnuweeb_bot.Base.{
  ℕ, ◌≡◌, refl, Bool, true, false, ◌&&◌, ◌||◌, not, Option, none, some, List, [], ◌∷◌, ◌==◌,
  if◌then◌else◌, Bytes, Bool-cases, inl, inr, ◌⊎◌, ◌++◌,
}
use gnuweeb_bot.Server.State.{Ret, success, fail, einval}
use gnuweeb_bot.Text.Trim.{trunc_str}

-- An answer of getopt_long before its -1: the option's letter, `?` for a wrong one, and `optarg`.
pub record Answer : Type 0 where
  pub letter : ℕ
  pub optarg : Bytes

-- What the arguments set of `struct gwbot_cfg`; `none` stands for NULL.
pub record Args : Type 0 where
  pub token : Option Bytes
  pub cfg_file : Option Bytes

-- What the parser returns, or the end of the program by `exit(0)`.
pub data Parsed : Type 0 where
  parsed : Ret → Args → Parsed
  exited : Parsed

-- What the cases of `t` and `c` set.
unfoldable pub set_arg : Answer → Args → Args
set_arg a cfg =
    if a.letter == b't'
    then record cfg { token = some (trunc_str a.optarg 255) }
    else record cfg { cfg_file = some (trunc_str a.optarg 255) }

unfoldable pub getopt_handler : List Answer → Args → Parsed
unfolding set_arg
getopt_handler [] cfg = parsed success cfg
getopt_handler (a ∷ opts) cfg =
    let rest = getopt_handler opts (set_arg a cfg) in
    if a.letter == b'h' || a.letter == b'v'
    then exited
    else if a.letter == b't' || a.letter == b'c'
    then rest
    else parsed (fail einval) cfg

unfoldable pub gwbot_argv_parse : List Answer → Args → Parsed
unfolding getopt_handler
gwbot_argv_parse opts cfg = getopt_handler opts cfg

-- The last answer with a letter, cut to 255 bytes, or what was set before.
last_of : ℕ → List Answer → Option Bytes → Option Bytes
last_of l [] before = before
last_of l (a ∷ opts) before =
    last_of l opts (if a.letter == l then some (trunc_str a.optarg 255) else before)

-- An answer that only sets something.
abbrev Sets : Answer → Type 0
Sets a = (a.letter ≡ b't') ⊎ (a.letter ≡ b'c')

data Settings : List Answer → Type 0 where
  no_more : Settings []
  one_more : {a : Answer} {opts : List Answer} → Sets a → Settings opts → Settings (a ∷ opts)

-- With the options for the token and the file alone the last one of each kind is what is set.
gwbot_argv_parse-Last :
    (opts : List Answer) (cfg : Args)
    → Settings opts
    → gwbot_argv_parse opts cfg
      ≡ parsed success
          record { token = last_of b't' opts cfg.token; cfg_file = last_of b'c' opts cfg.cfg_file }
unfolding gwbot_argv_parse last_of
gwbot_argv_parse-Last _ cfg no_more = refl
gwbot_argv_parse-Last (a ∷ opts) cfg (one_more sets more) = elim sets [
  | inl t ↦ rw t (
      gwbot_argv_parse-Last opts
        record { token = some (trunc_str a.optarg 255); cfg_file = cfg.cfg_file } more)
  | inr c ↦ rw c (
      gwbot_argv_parse-Last opts
        record { token = cfg.token; cfg_file = some (trunc_str a.optarg 255) } more)
]

-- What the first answer that sets nothing leads to: the end of the program, or an error.
Stopped : Answer → Parsed → Type 0
Stopped a r =
    if a.letter == b'h' || a.letter == b'v'
    then r ≡ exited
    else ((c : Args) × (r ≡ parsed (fail einval) c))

-- The first answer that sets nothing decides: help and version end the program, all else fails.
gwbot_argv_parse-Stops :
    (opts more : List Answer) (a : Answer) (cfg : Args)
    → Settings opts
    → (a.letter == b't' || a.letter == b'c') ≡ false
    → Stopped a (gwbot_argv_parse (opts ++ a ∷ more) cfg)
unfolding gwbot_argv_parse Stopped
gwbot_argv_parse-Stops _ more a cfg no_more other =
    elim (Bool-cases (a.letter == b'h' || a.letter == b'v')) [
      | inl ends ↦ rw ends refl
      | inr fails ↦ rw (fails, other) (cfg, refl)
    ]
gwbot_argv_parse-Stops (b ∷ opts) more a cfg (one_more sets rest) other = elim sets [
  | inl t ↦ rw t (
      gwbot_argv_parse-Stops opts more a
        record { token = some (trunc_str b.optarg 255); cfg_file = cfg.cfg_file } rest other)
  | inr c ↦ rw c (
      gwbot_argv_parse-Stops opts more a
        record { token = cfg.token; cfg_file = some (trunc_str b.optarg 255) } rest other)
]
