-- ===== src/Dispatch.antt =====
-- The module table and the event handler (core/event_handler.c, include/gwbot/module.h).
pub mod Order
pub mod Table
pub mod Safe
pub mod Packet
mod Tests
use Prim.Native.Nat.{bit_and}
use gnuweeb_bot.Base.{
  ℕ, zero, suc, Bool, true, false, Option, none, some, List, [], ◌∷◌, ◌==◌, if◌then◌else◌, Outcome,
  ok, crash, ◌>>=◌,
}
use gnuweeb_bot.Base.Int.{ℤ, pos, negsuc}
use gnuweeb_bot.Tg.Json.{JsonApi}
use gnuweeb_bot.Tg.Fill.{Got, got, err, broke}
use gnuweeb_bot.Tg.Event.{Tgev, type_of}
use gnuweeb_bot.Tg.Parse.{Event, Token, tg_event_load_str}
use gnuweeb_bot.Modules.{minus}

abbrev pub is_zero : ℤ → Bool
is_zero (pos n) = n == 0
is_zero (negsuc n) = false

-- `ret == -ECANCELED`
abbrev pub is_canceled : ℤ → Bool
is_canceled (pos n) = false
is_canceled (negsuc n) = n == 124

-- `W` is what the functions of the modules read and change.
module _ (W : Type 0) where
  -- `struct module_entry`; a NULL function is `none`.
  pub record Module : Type 0 where
    pub startup : Option (W → Outcome (W × ℤ))
    pub shutdown : Option (W → Outcome (W × ℤ))
    pub entry : Option (Tgev → W → Outcome (W × ℤ))
    pub event_mask : ℕ

  -- `is_mod_initialized`, and the rest.
  abbrev pub Flagged : Type 0
  Flagged = Bool × W

  -- The loop of `gwbot_module_startup`: it stops at the first module that fails.
  unfoldable pub start_all : List Module → W → Outcome (W × ℤ)
  start_all [] w = ok (w, pos 0)
  start_all (m ∷ ms) w = elim m.startup [
    | none ↦ start_all ms w
    | some f ↦ f w >>= λ r. (let rest = start_all ms r.0 in if is_zero r.1 then rest else ok r)
  ]

  abbrev pub started : W × ℤ → Flagged × ℤ
  started (w, ret) = if is_zero ret then ((true, w), pos 0) else ((false, w), ret)

  unfoldable pub gwbot_module_startup : List Module → Flagged → Outcome (Flagged × ℤ)
  unfolding start_all
  gwbot_module_startup ms (true, w) = ok ((true, w), pos 0)
  gwbot_module_startup ms (false, w) = start_all ms w >>= λ r. ok (started r)

  -- The loop of `gwbot_module_shutdown`: what a module returns does not stop it.
  unfoldable pub stop_all : List Module → W → Outcome W
  stop_all [] w = ok w
  stop_all (m ∷ ms) w = elim m.shutdown [
    | none ↦ stop_all ms w
    | some f ↦ f w >>= λ r. stop_all ms r.0
  ]

  unfoldable pub gwbot_module_shutdown : List Module → Flagged → Outcome (Flagged × ℤ)
  unfolding stop_all
  gwbot_module_shutdown ms (false, w) = ok ((false, w), pos 0)
  gwbot_module_shutdown ms (true, w) = stop_all ms w >>= λ w'. ok ((false, w'), pos 0)

  -- The loop of `gwbot_event_handler`; `ret` is what it has when the loop comes to the module.
  unfoldable pub run_modules : List Module → Tgev → W → ℤ → Outcome (W × ℤ)
  run_modules [] evt w ret = ok (w, ret)
  run_modules (m ∷ ms) evt w ret =
      if bit_and m.event_mask (type_of evt) == 0 then run_modules ms evt w ret else elim m.entry [
        | none ↦ run_modules ms evt w ret
        | some f ↦ f evt w >>= λ r.
            (let rest = run_modules ms evt r.0 r.1 in if is_canceled r.1 then rest else ok r)
      ]

  module _ (api : JsonApi) where
    abbrev pub handle_loaded : List Module → W → Got (Event api) → Outcome (W × ℤ)
    handle_loaded ms w (got evt) = run_modules ms evt.message w (pos 0)
    handle_loaded ms w (err e) = ok (w, minus e)
    handle_loaded ms w (broke x) = crash x

    -- `gwbot_event_handler`, at what json-c's tokener makes of the packet's text.
    unfoldable pub gwbot_event_handler : List Module → ℕ → Token api → W → Outcome (W × ℤ)
    unfolding run_modules tg_event_load_str
    gwbot_event_handler ms n t w = handle_loaded ms w (tg_event_load_str api n t)
