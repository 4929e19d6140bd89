-- ===== src/Config/Settled.antt =====
-- A configuration file sets what its entries say, the last entry of each name.
use gnuweeb_bot.Base.{
  ℕ, suc, ◌+◌, ◌*◌, ◌^◌, ◌<◌, ◌≡◌, ◌∙◌, refl, ap, Bool, true, false, Option, none, some,
  Option-cases, inl, inr, List, [], ◌∷◌, arith, ◌==◌, if◌then◌else◌, Bytes, take, c_text, length,
  ok,
}
use gnuweeb_bot.Server.State.{Ret, success, fail, einval, done}
use gnuweeb_bot.Config.Names.{meaning, find_key-meaning}
use gnuweeb_bot.Arena.{Arena}
use gnuweeb_bot.Arena.Keeps.{Keeps, ar_strndup-Copied, length-take-le}
use gnuweeb_bot.Config.{
  GwbotCfg, ParseStruct, Entry, Key, key_token, key_use_db, key_host, key_port, key_user, key_pass,
  key_db, key_unix_sock, key_bind_addr, key_bind_port, key_backlog, key_thread_c, key_ignored,
  set_string, assign, parser_handler, handle_entries, IniFile, cfg_result, gwbot_cfg_parse, atoi,
  to_u16, to_bool,
}

abbrev index_of : Key → ℕ
index_of key_token = 0
index_of key_use_db = 1
index_of key_host = 2
index_of key_port = 3
index_of key_user = 4
index_of key_pass = 5
index_of key_db = 6
index_of key_unix_sock = 7
index_of key_bind_addr = 8
index_of key_bind_port = 9
index_of key_backlog = 10
index_of key_thread_c = 11
index_of key_ignored = 12

-- The value that each name has been given, if any.
abbrev Values : Type 0
Values = Key → Option Bytes

abbrev pub with_value : Values → Key → Bytes → Values
with_value f k v j = if index_of j == index_of k then some v else f j

abbrev pub no_values : Values
no_values k = none

-- The values that entries give behind others, each the last of its name.
unfoldable pub values_after : Values → List Entry → Values
unfolding meaning
values_after f [] = f
values_after f (e ∷ es) = elim (meaning e.section e.name) [
  | none ↦ values_after f es
  | some k ↦ values_after (with_value f k e.value) es
]

-- Every entry is one of the table.
unfoldable pub all_known : List Entry → Bool
unfolding meaning
all_known [] = true
all_known (e ∷ es) =
    let rest = all_known es in elim (meaning e.section e.name) [ none ↦ false | some k ↦ rest ]

-- A string is as it was, or a place that keeps the value up to 255 bytes.
abbrev pub IsString : Arena → Option ℕ → Option ℕ → Option Bytes → Type 0
IsString ar old p none = p ≡ old
IsString ar old p (some v) = (at : ℕ) × (p ≡ some at) × Keeps ar at (take 255 (c_text v))

abbrev pub value_or {ℓ} : {A : Type ℓ} → A → (Bytes → A) → Option Bytes → A
value_or old conv none = old
value_or old conv (some v) = conv v

-- The configuration `cfg₀` with the values of `f`.
abbrev pub Settled : GwbotCfg → GwbotCfg → Arena → Values → Type 0
Settled cfg₀ cfg ar f =
    IsString ar cfg₀.token cfg.token (f key_token)
    × IsString ar cfg₀.host cfg.host (f key_host)
    × IsString ar cfg₀.user cfg.user (f key_user)
    × IsString ar cfg₀.pass cfg.pass (f key_pass)
    × IsString ar cfg₀.db cfg.db (f key_db)
    × IsString ar cfg₀.unix_sock cfg.unix_sock (f key_unix_sock)
    × IsString ar cfg₀.bind_addr cfg.bind_addr (f key_bind_addr)
    × (cfg.use_db ≡ value_or cfg₀.use_db (λ v. to_bool (atoi v)) (f key_use_db))
    × (cfg.port ≡ value_or cfg₀.port (λ v. to_u16 (atoi v)) (f key_port))
    × (cfg.bind_port ≡ value_or cfg₀.bind_port (λ v. to_u16 (atoi v)) (f key_bind_port))
    × (cfg.backlog ≡ value_or cfg₀.backlog atoi (f key_backlog))
    × (cfg.thread_c ≡ value_or cfg₀.thread_c (λ v. to_u16 (atoi v)) (f key_thread_c))

IsString-moved :
    (ar ar' : Arena) (old p : Option ℕ) (o : Option Bytes)
    → ((at : ℕ) (t : Bytes) → Keeps ar at t → Keeps ar' at t)
    → IsString ar old p o
    → IsString ar' old p o
IsString-moved ar ar' old p none keep h = h
IsString-moved ar ar' old p (some v) keep (at, e, k) = (at, e, keep at _ k)

-- A copy into the arena changes nothing of it.
Settled-moved :
    (cfg₀ cfg : GwbotCfg) (ar ar' : Arena) (f : Values)
    → ((at : ℕ) (t : Bytes) → Keeps ar at t → Keeps ar' at t)
    → Settled cfg₀ cfg ar f
    → Settled cfg₀ cfg ar' f
Settled-moved cfg₀ cfg ar ar' f keep s = (
  IsString-moved ar ar' cfg₀.token cfg.token (f key_token) keep s.0,
  IsString-moved ar ar' cfg₀.host cfg.host (f key_host) keep s.1,
  IsString-moved ar ar' cfg₀.user cfg.user (f key_user) keep s.2,
  IsString-moved ar ar' cfg₀.pass cfg.pass (f key_pass) keep s.3,
  IsString-moved ar ar' cfg₀.db cfg.db (f key_db) keep s.4,
  IsString-moved ar ar' cfg₀.unix_sock cfg.unix_sock (f key_unix_sock) keep s.5,
  IsString-moved ar ar' cfg₀.bind_addr cfg.bind_addr (f key_bind_addr) keep s.6,
  s.7,
  s.8,
  s.9,
  s.10,
  s.11,
)

-- The arena has room for a copy for each of `n` entries.
abbrev pub Room : Arena → ℕ → Type 0
Room ar n = (ar.pos + 256 * n < ar.size) × (ar.size < 2 ^ 64)

-- What an assignment gives.
abbrev Assigned : GwbotCfg → ParseStruct → Values → Key → Bytes → ℕ → Type 0
Assigned cfg₀ ctx f k v n =
    (ctx' : ParseStruct) × (assign ctx k v ≡ ok ctx')
    × (ctx'.exec ≡ ctx.exec)
    × Settled cfg₀ ctx'.cfg ctx'.arena (with_value f k v)
    × Room ctx'.arena n

-- The string of a configuration is set.
set_string-Kept :
    (ctx : ParseStruct) (update : ℕ → GwbotCfg) (v : Bytes) (n : ℕ)
    → Room ctx.arena (suc n)
    → (ar : Arena) × (at : ℕ) × (set_string ctx update v
        ≡ ok (record ctx { cfg = update at; arena = ar }))
      × Keeps ar at (take 255 (c_text v))
      × ((p : ℕ) (t : Bytes) → Keeps ctx.arena p t → Keeps ar p t)
      × Room ar n
unfolding set_string
set_string-Kept ctx update v n room =
    let (ar, at, run, copied) = ar_strndup-Copied ctx.arena v 255 (omega arith) room.1 in
    rw run (
      ar,
      at,
      refl,
      copied.kept,
      copied.others,
      (
        omega (arith, copied.pos, copied.same_size, room.0, length-take-le 255 (c_text v)),
        omega (arith, copied.same_size, room.1),
      ),
    )

assign-Assigned :
    (cfg₀ : GwbotCfg) (ctx : ParseStruct) (f : Values) (k : Key) (v : Bytes) (n : ℕ)
    → Settled cfg₀ ctx.cfg ctx.arena f
    → Room ctx.arena (suc n)
    → Assigned cfg₀ ctx f k v n
unfolding assign
assign-Assigned cfg₀ ctx f key_token v n s room =
    let (ar, at, run, kept, others, room') =
      set_string-Kept ctx (λ at. record ctx.cfg { token = some at }) v n room in
    let m = Settled-moved cfg₀ ctx.cfg ctx.arena ar f others s in
    (
      _,
      run,
      refl,
      ((at, refl, kept), m.1, m.2, m.3, m.4, m.5, m.6, m.7, m.8, m.9, m.10, m.11),
      room',
    )
assign-Assigned cfg₀ ctx f key_use_db v n s room = (
  _,
  refl,
  refl,
  (s.0, s.1, s.2, s.3, s.4, s.5, s.6, refl, s.8, s.9, s.10, s.11),
  (omega arith, room.1),
)
assign-Assigned cfg₀ ctx f key_host v n s room =
    let (ar, at, run, kept, others, room') =
      set_string-Kept ctx (λ at. record ctx.cfg { host = some at }) v n room in
    let m = Settled-moved cfg₀ ctx.cfg ctx.arena ar f others s in
    (
      _,
      run,
      refl,
      (m.0, (at, refl, kept), m.2, m.3, m.4, m.5, m.6, m.7, m.8, m.9, m.10, m.11),
      room',
    )
assign-Assigned cfg₀ ctx f key_port v n s room = (
  _,
  refl,
  refl,
  (s.0, s.1, s.2, s.3, s.4, s.5, s.6, s.7, refl, s.9, s.10, s.11),
  (omega arith, room.1),
)
assign-Assigned cfg₀ ctx f key_user v n s room =
    let (ar, at, run, kept, others, room') =
      set_string-Kept ctx (λ at. record ctx.cfg { user = some at }) v n room in
    let m = Settled-moved cfg₀ ctx.cfg ctx.arena ar f others s in
    (
      _,
      run,
      refl,
      (m.0, m.1, (at, refl, kept), m.3, m.4, m.5, m.6, m.7, m.8, m.9, m.10, m.11),
      room',
    )
assign-Assigned cfg₀ ctx f key_pass v n s room =
    let (ar, at, run, kept, others, room') =
      set_string-Kept ctx (λ at. record ctx.cfg { pass = some at }) v n room in
    let m = Settled-moved cfg₀ ctx.cfg ctx.arena ar f others s in
    (
      _,
      run,
      refl,
      (m.0, m.1, m.2, (at, refl, kept), m.4, m.5, m.6, m.7, m.8, m.9, m.10, m.11),
      room',
    )
assign-Assigned cfg₀ ctx f key_db v n s room =
    let (ar, at, run, kept, others, room') =
      set_string-Kept ctx (λ at. record ctx.cfg { db = some at }) v n room in
    let m = Settled-moved cfg₀ ctx.cfg ctx.arena ar f others s in
    (
      _,
      run,
      refl,
      (m.0, m.1, m.2, m.3, (at, refl, kept), m.5, m.6, m.7, m.8, m.9, m.10, m.11),
      room',
    )
assign-Assigned cfg₀ ctx f key_unix_sock v n s room =
    let (ar, at, run, kept, others, room') =
      set_string-Kept ctx (λ at. record ctx.cfg { unix_sock = some at }) v n room in
    let m = Settled-moved cfg₀ ctx.cfg ctx.arena ar f others s in
    (
      _,
      run,
      refl,
      (m.0, m.1, m.2, m.3, m.4, (at, refl, kept), m.6, m.7, m.8, m.9, m.10, m.11),
      room',
    )
assign-Assigned cfg₀ ctx f key_bind_addr v n s room =
    let (ar, at, run, kept, others, room') =
      set_string-Kept ctx (λ at. record ctx.cfg { bind_addr = some at }) v n room in
    let m = Settled-moved cfg₀ ctx.cfg ctx.arena ar f others s in
    (
      _,
      run,
      refl,
      (m.0, m.1, m.2, m.3, m.4, m.5, (at, refl, kept), m.7, m.8, m.9, m.10, m.11),
      room',
    )
assign-Assigned cfg₀ ctx f key_bind_port v n s room = (
  _,
  refl,
  refl,
  (s.0, s.1, s.2, s.3, s.4, s.5, s.6, s.7, s.8, refl, s.10, s.11),
  (omega arith, room.1),
)
assign-Assigned cfg₀ ctx f key_backlog v n s room = (
  _,
  refl,
  refl,
  (s.0, s.1, s.2, s.3, s.4, s.5, s.6, s.7, s.8, s.9, refl, s.11),
  (omega arith, room.1),
)
assign-Assigned cfg₀ ctx f key_thread_c v n s room = (
  _,
  refl,
  refl,
  (s.0, s.1, s.2, s.3, s.4, s.5, s.6, s.7, s.8, s.9, s.10, refl),
  (omega arith, room.1),
)
assign-Assigned cfg₀ ctx f key_ignored v n s room = (ctx, refl, refl, s, (omega arith, room.1))

-- -1 where the file could not be parsed, else -EINVAL where an entry is not known, else 0.
abbrev pub returned : Bool → Bool → Ret
returned true known = fail 1
returned false false = fail einval
returned false true = success

cfg_result-returned : (fails known : Bool) → cfg_result fails known ≡ returned fails known
cfg_result-returned true known = refl
cfg_result-returned false true = refl
cfg_result-returned false false = refl

-- What the entries of a file give.
abbrev Handled : GwbotCfg → ParseStruct → Values → List Entry → Type 0
Handled cfg₀ ctx f es =
    (ctx' : ParseStruct) × (handle_entries ctx es ≡ ok ctx')
    × (ctx'.exec ≡ (if all_known es then ctx.exec else false))
    × Settled cfg₀ ctx'.cfg ctx'.arena (values_after f es)

handle_entries-Handled :
    (cfg₀ : GwbotCfg) (ctx : ParseStruct) (f : Values) (es : List Entry)
    → Settled cfg₀ ctx.cfg ctx.arena f
    → Room ctx.arena (length es)
    → Handled cfg₀ ctx f es
unfolding handle_entries parser_handler values_after all_known
handle_entries-Handled cfg₀ ctx f [] s room = (ctx, refl, refl, s)
handle_entries-Handled cfg₀ ctx f (e ∷ es) s room =
    let same = find_key-meaning e.section e.name in
    elim (Option-cases (meaning e.section e.name)) [
      | inl unknown ↦
          let ctx₁ : ParseStruct = record ctx { exec = false } in
          let (ctx', run, exec, s') =
            handle_entries-Handled cfg₀ ctx₁ f es s (omega arith, room.1) in
          rw (parser_handler, values_after, all_known, same, unknown, run)
            (ctx', refl, exec ∙ same_branches (all_known es), s')
      | inr (k, known) ↦
          let (ctx₁, run₁, exec₁, s₁, room₁) =
            assign-Assigned cfg₀ ctx f k e.value (length es) s room in
          let (ctx', run, exec, s') =
            handle_entries-Handled cfg₀ ctx₁ (with_value f k e.value) es s₁ room₁ in
          rw (parser_handler, values_after, all_known, same, known, run₁, run)
            (ctx', refl, exec ∙ ap (λ (b : Bool). if all_known es then b else false) exec₁, s')
    ]
  where
    same_branches : (b : Bool) → (if b then false else false) ≡ false
    same_branches true = refl
    same_branches false = refl

-- A file that can be opened, and whose entries need no more than the room of the arena at 256 bytes
-- each, is read to its end. The result is -1 where inih fails, else -EINVAL where an entry has a
-- section or a name that is not in the table, else 0. Each name has then the value of its last entry,
-- strings up to 255 bytes of it in memory of their own, and a name without an entry is unchanged.
pub gwbot_cfg_parse-Settled :
    (cfg : GwbotCfg) (arena : Arena) (ini : IniFile)
    → Room arena (length ini.entries)
    → (cfg' : GwbotCfg) × (arena' : Arena) × (gwbot_cfg_parse (some (done ini)) cfg arena
        ≡ ok (cfg', arena', returned ini.fails (all_known ini.entries)))
      × Settled cfg cfg' arena' (values_after no_values ini.entries)
unfolding gwbot_cfg_parse
gwbot_cfg_parse-Settled cfg arena ini room =
    let ctx : ParseStruct = record { exec = true; cfg = cfg; arena = arena } in
    let (ctx', run, exec, s) =
      handle_entries-Handled cfg ctx no_values ini.entries
        (refl, refl, refl, refl, refl, refl, refl, refl, refl, refl, refl, refl) room in
    rw run (
      ctx'.cfg,
      ctx'.arena,
      rw (exec, if_true (all_known ini.entries))
          (ap (λ (r : Ret). ok (ctx'.cfg, ctx'.arena, r))
            (cfg_result-returned ini.fails (all_known ini.entries))),
      s,
    )
  where
    if_true : (b : Bool) → (if b then true else false) ≡ b
    if_true true = refl
    if_true false = refl
