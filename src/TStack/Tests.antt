-- ===== src/TStack/Tests.antt =====
-- Runs of tstack.h, and its theorems at concrete stacks.
use gnuweeb_bot.Base.{◌≡◌, refl, [], ◌∷◌, arith, ok}
use gnuweeb_bot.Base.Int.{pos, minus_one}
use gnuweeb_bot.TStack.{TStack, tss_push}
use gnuweeb_bot.TStack.Refine.{IsValid, Leaves, tss_push_refines}

abbrev one_of_three : TStack
one_of_three = record { sp = 2; capacity = 3; arr = 0 ∷ 0 ∷ 7 ∷ [] }

abbrev full : TStack
full = record { sp = 0; capacity = 1; arr = 4 ∷ [] }

one_of_three-IsValid : IsValid one_of_three
one_of_three-IsValid = omega arith

push_then_pop :
    tss_push one_of_three 5 ≡ ok (record one_of_three { sp = 1; arr = 0 ∷ 5 ∷ 7 ∷ [] }, pos 5)
unfolding tss_push
push_then_pop = refl

full_refuses : tss_push full 9 ≡ ok (full, minus_one)
unfolding tss_push
full_refuses = refl

tss_push_refines_example : Leaves 3 (5 ∷ 7 ∷ [], pos 5) (tss_push one_of_three 5)
tss_push_refines_example = tss_push_refines one_of_three 5 one_of_three-IsValid
