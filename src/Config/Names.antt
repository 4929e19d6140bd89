-- ===== src/Config/Names.antt =====
-- The sections and names of a configuration file (config.c), as a table.
use gnuweeb_bot.Base.{
  ◌≡◌, refl, Option, none, some, List, [], ◌∷◌, if◌then◌else◌, Bytes, codes, str_eq,
}
use gnuweeb_bot.Config.{
  Key, key_token, key_use_db, key_host, key_port, key_user, key_pass, key_db, key_unix_sock,
  key_bind_addr, key_bind_port, key_backlog, key_thread_c, key_ignored, find_key,
}

-- The names of a section, each with what it sets; `ignored` takes every name and sets nothing.
pub data Names : Type 0 where
  named : List (Bytes × Key) → Names
  ignored : Names

-- What a configuration file can say.
abbrev pub table : List (Bytes × Names)
table =
    (codes "credential", named ((codes "token", key_token) ∷ []))
    ∷ (codes "storage", ignored)
    ∷ (
      codes "mysql",
      named (
          (codes "use_db", key_use_db)
          ∷ (codes "host", key_host)
          ∷ (codes "port", key_port)
          ∷ (codes "user", key_user)
          ∷ (codes "pass", key_pass)
          ∷ (codes "dbname", key_db)
          ∷ (codes "unix_sock", key_unix_sock)
          ∷ []),
    )
    ∷ (
      codes "socket",
      named (
          (codes "bind_addr", key_bind_addr)
          ∷ (codes "bind_port", key_bind_port)
          ∷ (codes "backlog", key_backlog)
          ∷ []),
    )
    ∷ (codes "worker", named ((codes "thread_c", key_thread_c) ∷ []))
    ∷ []

in_names : List (Bytes × Key) → Bytes → Option Key
in_names [] name = none
in_names (x ∷ xs) name = if str_eq name x.0 then some x.1 else in_names xs name

in_section : Names → Bytes → Option Key
in_section (named xs) name = in_names xs name
in_section ignored name = some key_ignored

in_table : List (Bytes × Names) → Bytes → Bytes → Option Key
in_table [] section name = none
in_table (x ∷ xs) section name =
    if str_eq section x.0 then in_section x.1 name else in_table xs section name

-- What a name of a section sets, by the table.
unfoldable pub meaning : Bytes → Bytes → Option Key
unfolding in_table in_section in_names
meaning section name = in_table table section name

-- The tests of the handler are those of the table.
pub find_key-meaning : (section name : Bytes) → find_key section name ≡ meaning section name
unfolding find_key meaning
find_key-meaning section name = refl
