-- ===== src/Dispatch/Safe.antt =====
-- What the modules may do at an event, from the packet on.
use Prim.Native.Nat.{bit_and}
use gnuweeb_bot.Base.{
  Fault, crash, ◌++◌, ℕ, ◌-◌, length, ◌≡◌, ◌≢◌, refl, sym, Bool-cases, inl, inr, Option, none, some,
  List, [], ◌∷◌, map, All, All-append, ◌==◌, if◌then◌else◌, Bytes, codes, has_prefix, Outcome, ok,
  arith, ◌>>=◌,
}
use gnuweeb_bot.Base.Int.{ℤ, pos}
use gnuweeb_bot.Admin.{AdminEnv, Cmd, report, Effect, Result}
use gnuweeb_bot.Admin.Gate.{Privileged, Allowed, Gated, entry-Gated}
use gnuweeb_bot.Tg.Json.{JsonApi}
use gnuweeb_bot.Tg.Event.{
  Tgev, Pointer, nothing, wild, event, type_of, tge_get_text, tge_get_user_id, tge_get_reply_to,
}
use gnuweeb_bot.Modules.{Act, send_msg, admin, Done}
use gnuweeb_bot.Modules.Debug.{reply_size, debug_entry, debug_entry_text, standard_entry}
use gnuweeb_bot.Modules.Debug.Fits.{debug_text-fits}
use gnuweeb_bot.Modules.Translate.{
  Fetched, fetch_failed, invalid, answered, do_translate, translate_text, translate_parsed,
  handle_translate_module, Parsed, cancel, request,
}
use gnuweeb_bot.Modules.Translate.Query.{parse_command-Fits}
use gnuweeb_bot.Modules.Admin.{admin_entry, admin_at, acts_of, message_of}
use gnuweeb_bot.Dispatch.{Module, run_modules, is_canceled}
use gnuweeb_bot.Dispatch.Table.{Env, chat_at, recorded, register, text_or_photo, mod_tbl}

-- Messages may be sent for everyone; the administration module does what its user is allowed.
abbrev pub Permitted : AdminEnv → ℕ → Act → Type 0
Permitted env u (send_msg mode chat_id msg_id reply) = Unit {0}
Permitted env u (admin effect) = Allowed env u effect

-- It returns and has done only what is permitted, or the function of a command of the administration
-- module crashes that the user may run.
pub data Behaves (env : AdminEnv) (u : ℕ) : Outcome (List Act × ℤ) → Type 0 where
  returned :
      (acts : List Act) (ret : ℤ) → All (Permitted env u) acts → Behaves env u (ok (acts, ret))
  command_crashed :
      (cmd : Cmd) (target : ℕ) (reason : Option Bytes) (x : Fault)
      → (cmd ≢ report → Privileged env u)
      → env.exec cmd target reason ≡ crash x
      → Behaves env u (crash x)

module _ (env : AdminEnv) (u : ℕ) where
  -- A module whose entry behaves at the event, whatever has been done before.
  abbrev Good : Tgev → Module (List Act) → Type 0
  Good evt m =
      (f : Tgev → List Act → Outcome (List Act × ℤ))
      → m.entry ≡ some f
      → (acts : List Act) → All (Permitted env u) acts
      → Behaves env u (f evt acts)

  -- The round of a module whose type is in the mask; `next` is the rest of the loop.
  round-Behaves :
      (evt : Tgev) (o : Option (Tgev → List Act → Outcome (List Act × ℤ)))
      (next : List Act → ℤ → Outcome (List Act × ℤ)) (acts : List Act) (ret : ℤ)
      → ((f : Tgev → List Act → Outcome (List Act × ℤ)) → o ≡ some f → Behaves env u (f evt acts))
      → ((acts' : List Act) (ret' : ℤ)
          → All (Permitted env u) acts'
          → Behaves env u (next acts' ret'))
      → All (Permitted env u) acts
      → Behaves env u (elim o [
        | none ↦ next acts ret
        | some f ↦
            f evt acts >>= λ r. (let rest = next r.0 r.1 in if is_canceled r.1 then rest else ok r)
      ])
  round-Behaves evt none next acts ret good later p = later acts ret p
  round-Behaves evt (some f) next acts ret good later p = behind (good f refl)
    where
      behind :
          {m : Outcome (List Act × ℤ)}
          → Behaves env u m
          → Behaves env u
              (m >>= λ r. (let rest = next r.0 r.1 in if is_canceled r.1 then rest else ok r))
      behind (command_crashed cmd target reason x may e) = command_crashed cmd target reason x may e
      behind (returned acts' ret' p') = elim (Bool-cases (is_canceled ret')) [
        | inl on ↦ rw on (later acts' ret' p')
        | inr stop ↦ rw stop (returned acts' ret' p')
      ]

  run_modules-Behaves :
      (evt : Tgev) (ms : List (Module (List Act))) (acts : List Act) (ret : ℤ)
      → All (Good evt) ms
      → All (Permitted env u) acts
      → Behaves env u (run_modules (List Act) ms evt acts ret)
  unfolding run_modules
  run_modules-Behaves evt [] acts ret good p = returned acts ret p
  run_modules-Behaves evt (m ∷ ms) acts ret good p =
      elim (Bool-cases (bit_and m.event_mask (type_of evt) == 0)) [
        | inl off ↦ rw off (run_modules-Behaves evt ms acts ret good.1 p)
        | inr on ↦ rw on (
            round-Behaves evt m.entry (λ a r. run_modules (List Act) ms evt a r) acts ret
              (λ f e. good.0 f e acts p) (λ a r q. run_modules-Behaves evt ms a r good.1 q) p)
      ]

  recorded-Behaves :
      (acts : List Act) (m : Done)
      → All (Permitted env u) acts
      → Behaves env u m
      → Behaves env u (recorded acts m)
  recorded-Behaves acts _ p (returned new ret q) =
      returned (acts ++ new) ret (All-append (Permitted env u) acts new p q)
  recorded-Behaves acts _ p (command_crashed cmd target reason x may e) =
      command_crashed cmd target reason x may e

  register-Good :
      (evt : Tgev) (f : Tgev → Done) (mask : ℕ) → Behaves env u (f evt) → Good evt (register f mask)
  register-Good evt f mask b g e acts p =
      rw (sym (some_injective e)) (recorded-Behaves acts (f evt) p b)
    where
      some_injective : {A : Type 0} {a b : A} → some a ≡ some b → a ≡ b
      some_injective q = cc

-- The entries.
debug-Behaves :
    (env : AdminEnv) (u : ℕ) (page pretty : Bytes) (evt : Tgev)
    → length page ≡ reply_size - 5
    → Behaves env u (debug_entry page pretty evt)
unfolding debug_entry debug_entry_text
debug-Behaves env u page pretty evt size = at (tge_get_text evt)
  where
    at : (o : Option Bytes) → Behaves env u (debug_entry_text page pretty evt o)
    at none = returned [] _ tt
    at (some tx) = elim (Bool-cases (has_prefix (codes "/debug") tx)) [
      | inl asked ↦
          let (reply, made) = debug_text-fits page pretty size in
          rw (asked, made) (returned _ _ (tt, tt))
      | inr other ↦ rw other (returned [] _ tt)
    ]

standard-Behaves : (env : AdminEnv) (u : ℕ) (evt : Tgev) → Behaves env u (standard_entry evt)
unfolding standard_entry
standard-Behaves env u evt = returned [] _ tt

module _ (api : JsonApi) (env : AdminEnv) (u : ℕ) where
  reply-Behaves :
      (got' : Fetched api) (evt : Tgev) → Behaves env u (handle_translate_module api got' evt)
  unfolding handle_translate_module
  reply-Behaves (fetch_failed e) evt = returned [] _ tt
  reply-Behaves invalid evt = returned _ _ (tt, tt)
  reply-Behaves (answered obj) evt = returned _ _ (tt, tt)

  translate-Behaves :
      (fetch_api : Bytes → Fetched api) (evt : Tgev)
      → tge_get_reply_to evt ≢ wild
      → Behaves env u (do_translate api fetch_api evt)
  unfolding do_translate
  translate-Behaves fetch_api evt ne = at (tge_get_text evt)
    where
      parsed : (p : Parsed) → Behaves env u (translate_parsed api fetch_api (ok p))
      parsed cancel = returned [] _ tt
      parsed (request q e) = reply-Behaves (fetch_api q) e

      at : (o : Option Bytes) → Behaves env u (translate_text api fetch_api evt o)
      at none = returned [] _ tt
      at (some tx) = let (p, made, fine) = parse_command-Fits tx evt ne in rw made (parsed p)

-- The administration module.
map-Permitted :
    (env : AdminEnv) (u : ℕ) (effects : List Effect)
    → All (Allowed env u) effects
    → All (Permitted env u) (map admin effects)
map-Permitted env u [] p = tt
map-Permitted env u (e ∷ es) p = (p.0, map-Permitted env u es p.1)

acts_of-Behaves : (env : AdminEnv) (u : ℕ) (r : Result) → Gated env u r → Behaves env u (acts_of r)
acts_of-Behaves env u _ (Gated.returned effects ret p) =
    returned _ _ (map-Permitted env u effects p)
acts_of-Behaves env u _ (Gated.command_crashed cmd target reason x may e) =
    command_crashed cmd target reason x may e

admin-Behaves :
    (env : AdminEnv) (evt : Tgev)
    → tge_get_reply_to evt ≢ wild
    → Behaves env (tge_get_user_id evt) (admin_entry env evt)
unfolding admin_entry
admin-Behaves env evt ne = at (tge_get_reply_to evt) ne
  where
    at : (r : Pointer) → r ≢ wild → Behaves env (tge_get_user_id evt) (admin_at env evt r)
    at nothing q =
        acts_of-Behaves env (tge_get_user_id evt) _ (entry-Gated env (message_of evt none))
    at wild q = absurd (q refl)
    at (event e) q =
        acts_of-Behaves env (tge_get_user_id evt) _
          (entry-Gated env (message_of evt (some (tge_get_user_id e))))

-- No module crashes at an event whose reply pointer is NULL or points to an event, unless the function
-- of a command does, and what they do together is permitted to the event's user.
pub mod_tbl-Behaves :
    (api : JsonApi) (env : Env api) (evt : Tgev)
    → tge_get_reply_to evt ≢ wild
    → Behaves
        (chat_at api env evt)
        (tge_get_user_id evt)
        (run_modules (List Act) (mod_tbl api env) evt [] (pos 0))
unfolding mod_tbl
mod_tbl-Behaves api env evt ne =
    run_modules-Behaves chat u evt _ [] (pos 0)
      (
        register-Good chat u evt _ text_or_photo
            (debug-Behaves chat u env.page env.pretty evt env.page_size),
        (
          register-Good chat u evt standard_entry text_or_photo (standard-Behaves chat u evt),
          (
            register-Good chat u evt _ text_or_photo
                (translate-Behaves api chat u env.fetch_api evt ne),
            (
              register-Good chat u evt _ text_or_photo (admin-Behaves chat evt ne),
              ((λ f e acts p. ground arith), tt),
            ),
          ),
        ),
      )
      tt
  where
    u : ℕ
    u = tge_get_user_id evt

    chat : AdminEnv
    chat = chat_at api env evt
