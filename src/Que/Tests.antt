-- ===== src/Que/Tests.antt =====
-- Runs of que.h, and its theorems at concrete queues.
use gnuweeb_bot.Base.{◌≡◌, refl, none, some, List, [], ◌∷◌, ◌++◌, arith, ok}
use gnuweeb_bot.Que.{
  null, Heap, write, node, Que, que_enqueue, que_dequeue, que_destroy, enqueued, refused, enomem,
}
use gnuweeb_bot.Que.Chain.{Cell}
use gnuweeb_bot.Que.Fifo.{Holds, que_enqueue_lem, que_dequeue_lem}
use gnuweeb_bot.Que.Destroy.{Freed, que_destroy_lem}

abbrev two_nodes : Heap
two_nodes =
    write (write (λ _. none) 64 (some (node 128 null 1 (7 ∷ 0 ∷ [])))) 128
      (some (node null 64 2 (8 ∷ 9 ∷ 0 ∷ [])))

-- Two packets, in the nodes 64 and 128.
abbrev two : Que
two = record { heap = two_nodes; head = 64; tail = 128; count = 2; capacity = 3 }

abbrev cells : List Cell
cells = (64, null, 1, 7 ∷ 0 ∷ []) ∷ (128, 64, 2, 8 ∷ 9 ∷ 0 ∷ []) ∷ []

two-Holds : Holds two cells
two-Holds = ground arith

full-Holds : Holds (record two { capacity = 2 }) cells
full-Holds = ground arith

no_memory : que_enqueue two null (5 ∷ []) 1 ≡ ok (two, refused enomem)
unfolding que_enqueue
no_memory = refl

que_enqueue_lem_example :
    (q : Que) × (que_enqueue two 192 (5 ∷ []) 1 ≡ ok (q, enqueued 192))
    × Holds q (cells ++ (192, 128, 1, 5 ∷ 0 ∷ []) ∷ [])
    × (q.capacity ≡ 3)
que_enqueue_lem_example =
    que_enqueue_lem two cells 192 (5 ∷ []) 1 two-Holds (omega arith) (omega arith) refl

que_dequeue_lem_example :
    (q : Que) × (que_dequeue two ≡ ok (q, 64))
    × Holds q ((128, 64, 2, 8 ∷ 9 ∷ 0 ∷ []) ∷ [])
    × (q.heap ≡ two.heap)
    × (q.capacity ≡ 3)
que_dequeue_lem_example =
    que_dequeue_lem two ((64, null, 1, 7 ∷ 0 ∷ []) ∷ (128, 64, 2, 8 ∷ 9 ∷ 0 ∷ []) ∷ []) two-Holds

que_destroy_lem_example :
    (q : Que) × (que_destroy two ≡ ok q)
    × Holds q []
    × (q.capacity ≡ 0)
    × Freed two.heap cells q.heap
que_destroy_lem_example = que_destroy_lem two cells two-Holds
