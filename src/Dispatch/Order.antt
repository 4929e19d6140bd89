-- ===== src/Dispatch/Order.antt =====
-- Which module answers an event.
use Prim.Native.Nat.{bit_and}
use gnuweeb_bot.Base.{
  ℕ, zero, suc, ◌≡◌, ◌≢◌, refl, true, false, none, some, List, [], ◌∷◌, ◌++◌, ◌==◌, Outcome, ok,
  crash, arith, ◌>>=◌, Bool-cases, inl, inr,
}
use gnuweeb_bot.Base.Int.{ℤ, pos, negsuc}
use gnuweeb_bot.Tg.Event.{Tgev, type_of}
use gnuweeb_bot.Modules.{canceled}
use gnuweeb_bot.Dispatch.{
  Module, Flagged, run_modules, is_canceled, gwbot_module_startup, start_all, started,
}

==-false : (n : ℕ) → n ≢ 0 → (n == 0) ≡ false
==-false n ne = ground arith

module _ (W : Type 0) where
  -- The module has an entry, and the event's type is in its mask.
  abbrev pub Takes : Module W → Tgev → (Tgev → W → Outcome (W × ℤ)) → Type 0
  Takes m evt f = (bit_and m.event_mask (type_of evt) ≢ 0) × (m.entry ≡ some f)

  -- All of the modules let the event pass, from the one state and `ret` to the other.
  pub data Passed (evt : Tgev) : List (Module W) → W → ℤ → W → ℤ → Type 0 where
    finished : {w : W} {r : ℤ} → Passed evt [] w r w r
    masked :
        {m : Module W} {ms : List (Module W)} {w w' : W} {r r' : ℤ}
        → bit_and m.event_mask (type_of evt) ≡ 0
        → Passed evt ms w r w' r'
        → Passed evt (m ∷ ms) w r w' r'
    without_entry :
        {m : Module W} {ms : List (Module W)} {w w' : W} {r r' : ℤ}
        → m.entry ≡ none
        → Passed evt ms w r w' r'
        → Passed evt (m ∷ ms) w r w' r'
    declined :
        {m : Module W} {ms : List (Module W)} {w w₁ w' : W} {r r' : ℤ}
        (f : Tgev → W → Outcome (W × ℤ))
        → Takes m evt f
        → f evt w ≡ ok (w₁, canceled)
        → Passed evt ms w₁ canceled w' r'
        → Passed evt (m ∷ ms) w r w' r'

  -- Behind modules that let the event pass, the loop goes on with the rest from where they left off.
  run_modules-Passed :
      (evt : Tgev) (ms later : List (Module W)) (w : W) (r : ℤ) (w' : W) (r' : ℤ)
      → Passed evt ms w r w' r'
      → run_modules W (ms ++ later) evt w r ≡ run_modules W later evt w' r'
  unfolding run_modules
  run_modules-Passed evt [] later w r _ _ finished = refl
  run_modules-Passed evt (m ∷ ms) later w r w' r' (masked off p) =
      rw off (run_modules-Passed evt ms later w r w' r' p)
  run_modules-Passed evt (m ∷ ms) later w r w' r' (without_entry no_f p) =
      elim (Bool-cases (bit_and m.event_mask (type_of evt) == 0)) [
        | inl off ↦ rw off (run_modules-Passed evt ms later w r w' r' p)
        | inr on ↦ rw (on, no_f) (run_modules-Passed evt ms later w r w' r' p)
      ]
  run_modules-Passed evt (m ∷ ms) later w r w' r' (declined {w₁ = w₁} f (on, at) answer p) =
      rw (==-false (bit_and m.event_mask (type_of evt)) on, at, answer)
        (run_modules-Passed evt ms later w₁ canceled w' r' p)

  -- The event goes to the modules in the order of the table. The first whose entry does not return
  -- -ECANCELED decides: its return value is the handler's, and no later module is called.
  pub run_modules-first :
      (evt : Tgev) (ms : List (Module W)) (m : Module W) (later : List (Module W)) (w : W) (r : ℤ)
      (w₁ : W) (r₁ : ℤ) (f : Tgev → W → Outcome (W × ℤ)) (w' : W) (ret : ℤ)
      → Passed evt ms w r w₁ r₁
      → Takes m evt f
      → f evt w₁ ≡ ok (w', ret)
      → ret ≢ canceled
      → run_modules W (ms ++ m ∷ later) evt w r ≡ ok (w', ret)
  unfolding run_modules
  run_modules-first evt ms m later w r w₁ r₁ f w' ret p (on, at) answer ne =
      rw
        (
          run_modules-Passed evt ms (m ∷ later) w r w₁ r₁ p,
          ==-false (bit_and m.event_mask (type_of evt)) on,
          at,
          answer,
          not_canceled ret ne,
        )
        refl
    where
      not_canceled : (z : ℤ) → z ≢ canceled → is_canceled z ≡ false
      not_canceled (pos n) ne = refl
      not_canceled (negsuc n) ne = ground arith

  -- What has returned 0 has set the flag.
  flag_set :
      (m : Outcome (W × ℤ)) (w' : W) → (m >>= λ r. ok (started W r)) ≢ ok ((false, w'), pos 0)
  flag_set (crash x) w' = ground arith
  flag_set (ok (w, pos zero)) w' = ground arith
  flag_set (ok (w, pos (suc n))) w' = ground arith
  flag_set (ok (w, negsuc n)) w' = ground arith

  -- Modules that have been started are not started again: where `gwbot_module_startup` has returned
  -- 0, another call returns 0 and changes nothing.
  pub startup_once :
      (ms : List (Module W)) (s s' : Flagged W)
      → gwbot_module_startup W ms s ≡ ok (s', pos 0)
      → gwbot_module_startup W ms s' ≡ ok (s', pos 0)
  unfolding gwbot_module_startup
  startup_once ms s (true, w') h = refl
  startup_once ms (true, w) (false, w') h = ground arith
  startup_once ms (false, w) (false, w') h = absurd (flag_set (start_all W ms w) w' h)
