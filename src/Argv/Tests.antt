-- ===== src/Argv/Tests.antt =====
-- Runs of the parser of the arguments.
use gnuweeb_bot.Base.{◌≡◌, refl, none, some, List, [], ◌∷◌, ◌++◌, codes}
use gnuweeb_bot.Server.State.{success, fail, einval}
use gnuweeb_bot.Argv.{Answer, Args, parsed, exited, gwbot_argv_parse}
use gnuweeb_bot.Text.Trim.{trunc_str}

abbrev opts : List Answer
opts =
    record { letter = b't'; optarg = codes "a" ++ 0 ∷ [] }
    ∷ record { letter = b'c'; optarg = codes "f" ++ 0 ∷ [] }
    ∷ record { letter = b't'; optarg = codes "b" ++ 0 ∷ [] }
    ∷ []

abbrev unset : Args
unset = record { token = none; cfg_file = none }

last_wins :
    gwbot_argv_parse opts unset
    ≡ parsed success
        record { token = some (codes "b" ++ 0 ∷ []); cfg_file = some (codes "f" ++ 0 ∷ []) }
unfolding gwbot_argv_parse trunc_str
last_wins = refl

-- `-D x` is accepted by `short_opt`, and has no case.
depth_refused :
    gwbot_argv_parse (record { letter = b'D'; optarg = codes "x" ++ 0 ∷ [] } ∷ []) unset
    ≡ parsed (fail einval) unset
unfolding gwbot_argv_parse
depth_refused = refl

help_exits : gwbot_argv_parse (record { letter = b'h'; optarg = [] } ∷ []) unset ≡ exited
unfolding gwbot_argv_parse
help_exits = refl
