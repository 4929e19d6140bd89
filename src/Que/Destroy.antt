-- ===== src/Que/Destroy.antt =====
-- `que_destroy` and `que_node_destroy` of que.h: every node of the queue is freed, once, and no other.
use gnuweeb_bot.Base.{
  ℕ, zero, suc, ◌+◌, ◌<◌, ◌≡◌, ◌≢◌, refl, ◌∙◌, none, some, List, [], ◌∷◌, arith, length, All, ok,
}
use gnuweeb_bot.Que.{
  Ptr, null, Node, Heap, write, Que, que_init, que_destroy, que_node_destroy, destroy_from,
}
use gnuweeb_bot.Que.Chain.{Cell, Chain, Avoids, Distinct, frame-write}
use gnuweeb_bot.Que.Fifo.{Holds}

-- `g` is `h` with the nodes `xs` freed.
pub record Freed (h : Heap) (xs : List Cell) (g : Heap) : Type 0 where
  pub gone : All (λ c. g c.0 ≡ none) xs
  pub rest : (a : Ptr) → Avoids a xs → g a ≡ h a

-- Freeing the first node and then the others.
Freed-cons :
    (h g : Heap) (x : Cell) (xs : List Cell)
    → Avoids x.0 xs
    → Freed (write h x.0 none) xs g
    → Freed h (x ∷ xs) g
Freed-cons h g x xs out f = record {
  gone = (ground (arith, f.rest x.0 out), f.gone);
  rest = λ a o. ground (arith, f.rest a o.1, o.0);
}

-- One round of the loop frees a node and goes on at its successor.
destroy_step :
    (k : ℕ) (q : Que) (p a : Ptr) (n : Node)
    → p ≡ a
    → a ≢ null
    → q.heap a ≡ some n
    → destroy_from (suc k) q p ≡ destroy_from k (record q { heap = write q.heap a none }) n.next
unfolding destroy_from que_node_destroy
destroy_step k q p a n e nn at = ground arith

destroy_from_lem :
    (k : ℕ) (q : Que) (p t : Ptr) (xs : List Cell)
    → Chain q.heap p xs t
    → Distinct xs
    → length xs < k
    → (g : Heap) × (destroy_from k q p ≡ ok (record q { heap = g })) × Freed q.heap xs g
unfolding destroy_from
destroy_from_lem zero q p t xs c apart h = absurd (omega arith)
destroy_from_lem (suc k) q p t [] c apart h =
    (q.heap, ground arith, record { gone = tt; rest = λ a o. refl })
destroy_from_lem (suc k) q p t ((a, b, l, d) ∷ []) c apart h =
    let q' = record q { heap = write q.heap a none } in
    let (g, run, f) = destroy_from_lem k q' null null [] (refl, refl) tt (omega arith) in
    (g, destroy_step k q p a _ c.0 c.1 c.2 ∙ run, Freed-cons q.heap g (a, b, l, d) [] tt f)
destroy_from_lem (suc k) q p t ((a, b, l, d) ∷ (a', b', l', d') ∷ xs) c apart h =
    let q' = record q { heap = write q.heap a none } in
    let ys = (a', b', l', d') ∷ xs in
    let c' = frame-write q.heap a none a' t ys apart.0 c.3 in
    let (g, run, f) = destroy_from_lem k q' a' t ys c' apart.1 (omega arith) in
    (g, destroy_step k q p a _ c.0 c.1 c.2 ∙ run, Freed-cons q.heap g (a, b, l, d) ys apart.0 f)

-- `que_destroy` ends, and leaves an empty queue of capacity 0, the nodes of the queue freed and
-- every other allocation as it was.
pub que_destroy_lem :
    (q : Que) (xs : List Cell)
    → Holds q xs
    → (q' : Que) × (que_destroy q ≡ ok q')
      × Holds q' []
      × (q'.capacity ≡ 0)
      × Freed q.heap xs q'.heap
unfolding que_destroy que_init
que_destroy_lem q [] v =
    (que_init q 0, ground arith, ground arith, refl, record { gone = tt; rest = λ a o. refl })
que_destroy_lem q (x ∷ xs) v =
    let (g, run, f) =
      destroy_from_lem (q.count + 1) q q.head q.tail (x ∷ xs) v.chain v.distinct (omega arith) in
    (que_init (record q { heap = g }) 0, ground (arith, run), ground arith, refl, f)

-- Freeing an allocated node that is not of the queue succeeds and keeps the queue.
pub que_node_destroy-Holds :
    (q : Que) (xs : List Cell) (p : Ptr) (n : Node)
    → Holds q xs
    → Avoids p xs
    → p ≢ null
    → q.heap p ≡ some n
    → (q' : Que) × (que_node_destroy q p ≡ ok q')
      × Holds q' xs
      × (q'.heap p ≡ none)
      × (q'.capacity ≡ q.capacity)
unfolding que_node_destroy
que_node_destroy-Holds q xs p n v out pn at = (
  record q { heap = write q.heap p none },
  ground arith,
  record {
    chain = frame-write q.heap p none q.head q.tail xs out v.chain;
    distinct = v.distinct;
    counted = v.counted;
    bounded = v.bounded;
    word = v.word;
  },
  ground arith,
  refl,
)
