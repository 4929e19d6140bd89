-- ===== src/Config/Tests.antt =====
-- Tests of the reader of the configuration, and its theorem at a concrete file.
use gnuweeb_bot.Base.{◌≡◌, refl, true, false, none, some, [], ◌∷◌, arith, codes, ok}
use gnuweeb_bot.Base.Int.{pos}
use gnuweeb_bot.Server.State.{done}
use gnuweeb_bot.Arena.{Arena}
use gnuweeb_bot.Config.{GwbotCfg, key_bind_port, IniFile, gwbot_cfg_parse, atoi, to_u16}
use gnuweeb_bot.Config.Names.{meaning}
use gnuweeb_bot.Config.Settled.{
  returned, Settled, values_after, no_values, all_known, gwbot_cfg_parse-Settled,
}

abbrev zero_cfg : GwbotCfg
zero_cfg = record {
  token = none;
  bind_addr = none;
  backlog = pos 0;
  bind_port = 0;
  thread_c = 0;
  host = none;
  user = none;
  pass = none;
  db = none;
  port = 0;
  unix_sock = none;
  use_db = false;
}

abbrev arena : Arena
arena = record { addr = λ i. 0; size = 4096; pos = 0 }

abbrev file : IniFile
file = record {
  entries =
      record { section = codes "credential"; name = codes "token"; value = codes "12:ab" }
      ∷ record { section = codes "socket"; name = codes "bind_port"; value = codes "-1" }
      ∷ record { section = codes "socket"; name = codes "bind_port"; value = codes " 8443x" }
      ∷ [];
  fails = false;
}

negative : to_u16 (atoi (codes "-1")) ≡ 65535
unfolding atoi to_u16
negative = refl

known_names : all_known file.entries ≡ true
unfolding all_known meaning
known_names = refl

last_port : values_after no_values file.entries key_bind_port ≡ some (codes " 8443x")
unfolding values_after meaning
last_port = refl

gwbot_cfg_parse-Settled_example :
    (cfg' : GwbotCfg) × (arena' : Arena) × (gwbot_cfg_parse (some (done file)) zero_cfg arena
      ≡ ok (cfg', arena', returned file.fails (all_known file.entries)))
    × Settled zero_cfg cfg' arena' (values_after no_values file.entries)
gwbot_cfg_parse-Settled_example =
    gwbot_cfg_parse-Settled zero_cfg arena file (omega arith, omega arith)
