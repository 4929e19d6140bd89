-- ===== src/Config.antt =====
-- The reader of the configuration file (config.c), behind inih, which hands it the entries.
pub mod Names
pub mod Settled
mod Tests
use gnuweeb_bot.Base.{
  ℕ, ◌+◌, ◌-◌, ◌*◌, ◌%◌, ◌^◌, Bool, true, false, ◌&&◌, ◌||◌, not, Option, none, some, List, [], ◌∷◌,
  ltb, leb, ◌==◌, if◌then◌else◌, Bytes, codes, str_eq, Outcome, ok, ◌>>=◌,
}
use gnuweeb_bot.Base.Int.{ℤ, pos, negsuc}
use gnuweeb_bot.Server.State.{Ret, success, fail, einval, Sys, done, failed}
use gnuweeb_bot.Arena.{Arena, ar_strndup}

-- `struct gwbot_cfg` without the name of the file; a string is its place in the arena, or NULL.
pub record GwbotCfg : Type 0 where
  pub token : Option ℕ
  pub bind_addr : Option ℕ
  pub backlog : ℤ
  pub bind_port : ℕ
  pub thread_c : ℕ
  pub host : Option ℕ
  pub user : Option ℕ
  pub pass : Option ℕ
  pub db : Option ℕ
  pub port : ℕ
  pub unix_sock : Option ℕ
  pub use_db : Bool

-- `struct parse_struct`, with what it points to and the arena.
pub record ParseStruct : Type 0 where
  pub exec : Bool
  pub cfg : GwbotCfg
  pub arena : Arena

-- A section, a name and a value.
pub record Entry : Type 0 where
  pub section : Bytes
  pub name : Bytes
  pub value : Bytes

-- The C library's `atoi`; a value outside of `int` is undefined there.
digits_value : ℕ → Bytes → ℕ
digits_value n [] = n
digits_value n (c ∷ s) =
    let rest = digits_value (n * 10 + (c - b'0')) s in if leb b'0' c && leb c b'9' then rest else n

abbrev is_space : ℕ → Bool
is_space c = c == 32 || (leb 9 c && leb c 13)

skip_spaces : Bytes → Bytes
skip_spaces [] = []
skip_spaces (c ∷ s) = let rest = skip_spaces s in if is_space c then rest else c ∷ s

abbrev negated : ℕ → ℤ
negated n = if n == 0 then pos 0 else negsuc (n - 1)

signed_value : Bytes → ℤ
unfolding digits_value
signed_value [] = pos 0
signed_value (c ∷ s) =
    if c == b'-'
    then negated (digits_value 0 s)
    else if c == b'+'
    then pos (digits_value 0 s)
    else pos (digits_value 0 (c ∷ s))

unfoldable pub atoi : Bytes → ℤ
unfolding skip_spaces signed_value
atoi s = signed_value (skip_spaces s)

-- The conversions of an `int` to `uint16_t` and to a truth value.
unfoldable pub to_u16 : ℤ → ℕ
to_u16 (pos n) = n % 2 ^ 16
to_u16 (negsuc n) = 2 ^ 16 - 1 - n % 2 ^ 16

unfoldable pub to_bool : ℤ → Bool
to_bool (pos n) = not (n == 0)
to_bool (negsuc n) = true

-- What an entry sets; nothing, in the section `storage`.
pub data Key : Type 0 where
  key_token key_use_db key_host key_port key_user key_pass key_db key_unix_sock : Key
  key_bind_addr key_bind_port key_backlog key_thread_c key_ignored : Key

-- The tests `rmatch_s` and `rmatch_n`.
unfoldable pub find_key : Bytes → Bytes → Option Key
find_key section name =
    if str_eq section (codes "credential")
    then (if str_eq name (codes "token") then some key_token else none)
    else if str_eq section (codes "storage")
    then some key_ignored
    else if str_eq section (codes "mysql")
    then (if str_eq name (codes "use_db")
        then some key_use_db
        else if str_eq name (codes "host")
        then some key_host
        else if str_eq name (codes "port")
        then some key_port
        else if str_eq name (codes "user")
        then some key_user
        else if str_eq name (codes "pass")
        then some key_pass
        else if str_eq name (codes "dbname")
        then some key_db
        else if str_eq name (codes "unix_sock")
        then some key_unix_sock
        else none)
    else if str_eq section (codes "socket")
    then (if str_eq name (codes "bind_addr")
        then some key_bind_addr
        else if str_eq name (codes "bind_port")
        then some key_bind_port
        else if str_eq name (codes "backlog")
        then some key_backlog
        else none)
    else if str_eq section (codes "worker")
    then (if str_eq name (codes "thread_c") then some key_thread_c else none)
    else none

-- A string of the configuration.
unfoldable pub set_string : ParseStruct → (ℕ → GwbotCfg) → Bytes → Outcome ParseStruct
unfolding ar_strndup
set_string ctx update value = do
  (arena, at) ← ar_strndup ctx.arena value 255
  ok (record ctx { cfg = update at; arena = arena })

-- The assignments.
unfoldable pub assign : ParseStruct → Key → Bytes → Outcome ParseStruct
unfolding set_string atoi to_u16 to_bool
assign ctx key_token v = set_string ctx (λ at. record ctx.cfg { token = some at }) v
assign ctx key_use_db v = ok (record ctx { cfg = record ctx.cfg { use_db = to_bool (atoi v) } })
assign ctx key_host v = set_string ctx (λ at. record ctx.cfg { host = some at }) v
assign ctx key_port v = ok (record ctx { cfg = record ctx.cfg { port = to_u16 (atoi v) } })
assign ctx key_user v = set_string ctx (λ at. record ctx.cfg { user = some at }) v
assign ctx key_pass v = set_string ctx (λ at. record ctx.cfg { pass = some at }) v
assign ctx key_db v = set_string ctx (λ at. record ctx.cfg { db = some at }) v
assign ctx key_unix_sock v = set_string ctx (λ at. record ctx.cfg { unix_sock = some at }) v
assign ctx key_bind_addr v = set_string ctx (λ at. record ctx.cfg { bind_addr = some at }) v
assign ctx key_bind_port v =
    ok (record ctx { cfg = record ctx.cfg { bind_port = to_u16 (atoi v) } })
assign ctx key_backlog v = ok (record ctx { cfg = record ctx.cfg { backlog = atoi v } })
assign ctx key_thread_c v = ok (record ctx { cfg = record ctx.cfg { thread_c = to_u16 (atoi v) } })
assign ctx key_ignored v = ok ctx

-- What the handler does with an entry, and the truth value that it returns.
unfoldable pub parser_handler : ParseStruct → Entry → Outcome (ParseStruct × Bool)
unfolding find_key assign
parser_handler ctx e = elim (find_key e.section e.name) [
  | none ↦ ok (record ctx { exec = false }, false)
  | some k ↦ assign ctx k e.value >>= λ ctx'. ok (ctx', true)
]

-- inih calls the handler for every entry of the file, also behind one that is refused.
unfoldable pub handle_entries : ParseStruct → List Entry → Outcome ParseStruct
unfolding parser_handler
handle_entries ctx [] = ok ctx
handle_entries ctx (e ∷ es) = do (ctx', _) ← parser_handler ctx e; handle_entries ctx' es

-- What `ini_parse_file` finds in a file: the entries, and whether it returns a negative number.
pub record IniFile : Type 0 where
  pub entries : List Entry
  pub fails : Bool

abbrev pub cfg_result : Bool → Bool → Ret
cfg_result fails exec = if fails then fail 1 else if exec then success else fail einval

-- `opened` is what `fopen` answers for the file, `none` where no file is named; -1 is `fail 1`.
unfoldable pub gwbot_cfg_parse :
    Option (Sys IniFile) → GwbotCfg → Arena → Outcome (GwbotCfg × Arena × Ret)
unfolding handle_entries
gwbot_cfg_parse none cfg arena = ok (cfg, arena, success)
gwbot_cfg_parse (some (failed e)) cfg arena = ok (cfg, arena, fail e)
gwbot_cfg_parse (some (done ini)) cfg arena = do
  ctx ← handle_entries (record { exec = true; cfg = cfg; arena = arena }) ini.entries
  ok (ctx.cfg, ctx.arena, cfg_result ini.fails ctx.exec)
