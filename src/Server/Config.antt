-- ===== src/Server/Config.antt =====
-- Which configurations the server accepts (core/server.c).
use gnuweeb_bot.Base.{◌≡◌, ◌≢◌, ◌↔◌, true, false, refl, arith}
use gnuweeb_bot.Base.Int.{ℤ, pos, negsuc}
use gnuweeb_bot.Server.State.{success}
use gnuweeb_bot.Server.Setup.{Cfg, validate_cfg, validate_mysql_cfg, is_null, is_empty, is_zero}

-- What a configuration must have to be accepted.
abbrev pub Usable : Cfg → Type 0
Usable cfg =
    (is_empty cfg.bind_addr ≡ false)
    × (cfg.bind_port ≢ 0)
    × (cfg.backlog ≢ pos 0)
    × (is_empty cfg.token ≡ false)
    × (cfg.thread_c ≢ 0)
    × (cfg.use_db ≡ true
        → (is_null cfg.mysql_host ≡ false)
          × (is_null cfg.mysql_user ≡ false)
          × (is_null cfg.mysql_db ≡ false))

is_zero-ne : (n : ℤ) → (is_zero n ≡ false) ↔ (n ≢ pos 0)
is_zero-ne (pos n) = ((λ h e. ground arith), (λ ne. ground arith))
is_zero-ne (negsuc n) = ((λ h e. ground arith), (λ ne. refl))

-- A configuration is accepted exactly when it has a non-empty address and token, a port, a backlog
-- and at least one thread, and, if the database is used, a host, a user and a database.
pub validate_cfg-Usable : (cfg : Cfg) → (validate_cfg cfg ≡ success) ↔ Usable cfg
unfolding validate_cfg validate_mysql_cfg
validate_cfg-Usable cfg = (
  (λ h. ground (arith, is_zero-ne cfg.backlog)),
  (λ u. ground (arith, (is_zero-ne cfg.backlog).1 u.2)),
)
