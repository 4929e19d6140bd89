-- ===== src/Que/Fifo.antt =====
-- A valid queue of que.h behaves as a bounded first-in first-out queue of packets.
use gnuweeb_bot.Base.{
  ℕ, ◌+◌, ◌-◌, ◌%◌, ◌^◌, ◌≤◌, ◌<◌, ◌≡◌, ◌≢◌, refl, none, some, List, [], ◌∷◌, ◌++◌, arith, length,
  length-append, take, Bytes, ok,
}
use gnuweeb_bot.Que.{
  Ptr, null, Heap, write, node, Que, que_init, que_enqueue, que_dequeue, enqueued, refused, eagain,
}
use gnuweeb_bot.Que.Chain.{
  Cell, Chain, Distinct, Avoids-of_none, last_node, head_node, extend, Distinct-snoc,
}

-- The queue holds the nodes `xs`, in order, all distinct; `count` counts them, and fits a uint32_t.
pub record Holds (q : Que) (xs : List Cell) : Type 0 where
  pub chain : Chain q.heap q.head xs q.tail
  pub distinct : Distinct xs
  pub counted : q.count ≡ length xs
  pub bounded : q.count ≤ q.capacity
  pub word : q.capacity < 2 ^ 32

-- An initialised queue holds nothing.
pub que_init-Holds : (q : Que) (capacity : ℕ) → capacity < 2 ^ 32 → Holds (que_init q capacity) []
unfolding que_init
que_init-Holds q capacity h = ground arith

-- A full queue takes nothing: EAGAIN, and nothing changes.
pub que_enqueue_full :
    (q : Que) (xs : List Cell) (p : Ptr) (bytes : Bytes) (len : ℕ)
    → Holds q xs
    → length xs ≡ q.capacity
    → que_enqueue q p bytes len ≡ ok (q, refused eagain)
unfolding que_enqueue
que_enqueue_full q xs p bytes len v full = ground arith

-- What the queue keeps of a packet put into the node `p`: its first `len` bytes and a 0.
abbrev pub cell : Que → Ptr → Bytes → ℕ → Cell
cell q p bytes len = (p, q.tail, len, take len bytes ++ 0 ∷ [])

-- A queue with room takes the packet as its last, with the 0 that the code adds, in the node that the
-- allocation returns, if that is not NULL and was free; no assertion fails.
pub que_enqueue_lem :
    (q : Que) (xs : List Cell) (p : Ptr) (bytes : Bytes) (len : ℕ)
    → Holds q xs
    → length xs < q.capacity
    → p ≢ null
    → q.heap p ≡ none
    → (q' : Que) × (que_enqueue q p bytes len ≡ ok (q', enqueued p))
      × Holds q' (xs ++ cell q p bytes len ∷ [])
      × (q'.capacity ≡ q.capacity)
unfolding que_enqueue
que_enqueue_lem q [] p bytes len v room pn fresh = (
  record q {
    heap = write q.heap p (some (node null null len (take len bytes ++ 0 ∷ [])));
    head = p;
    tail = p;
    count = (q.count + 1) % 2 ^ 32;
  },
  ground arith,
  ground arith,
  refl,
)
que_enqueue_lem q (x ∷ xs) p bytes len v room pn fresh =
    let (n, at, tn) = last_node q.heap q.head q.tail x xs v.chain in
    let stored = node null q.tail len (take len bytes ++ 0 ∷ []) in
    let ne : q.tail ≢ p = λ e. ground arith in
    let (_, hn) = head_node q.heap q.head q.tail x xs v.chain in
    let g : Heap = write (write q.heap p (some stored)) q.tail (some (record n { next = p })) in
    (
      record q { heap = g; tail = p; count = (q.count + 1) % 2 ^ 32 },
      ground arith,
      record {
        chain =
            extend q.heap g q.head q.tail p q.tail len (take len bytes ++ 0 ∷ []) n x xs v.chain
              v.distinct (Avoids-of_none q.heap q.head q.tail p (x ∷ xs) v.chain fresh) pn
              (ground arith) at (ground arith) (λ a e f. ground arith);
        distinct =
            Distinct-snoc (x ∷ xs) (cell q p bytes len) v.distinct
              (Avoids-of_none q.heap q.head q.tail p (x ∷ xs) v.chain fresh);
        counted = omega (arith, length-append (x ∷ xs) (cell q p bytes len ∷ []));
        bounded = omega arith;
        word = omega arith;
      },
      refl,
    )

-- What a queue gives, and what it holds afterwards.
abbrev pub Dequeued : Que → List Cell → Type 0
Dequeued q [] = que_dequeue q ≡ ok (q, null)
Dequeued q (x ∷ xs) =
    (q' : Que) × (que_dequeue q ≡ ok (q', x.0))
    × Holds q' xs
    × (q'.heap ≡ q.heap)
    × (q'.capacity ≡ q.capacity)

-- The first packet leaves first, and no node is freed or written; an empty queue
-- gives NULL, and nothing changes.
pub que_dequeue_lem : (q : Que) (xs : List Cell) → Holds q xs → Dequeued q xs
unfolding que_dequeue
que_dequeue_lem q [] v = ground arith
que_dequeue_lem q ((a, b, l, d) ∷ []) v = (
  record q { head = null; tail = null; count = q.count - 1 },
  ground arith,
  ground arith,
  refl,
  refl,
)
que_dequeue_lem q ((a, b, l, d) ∷ (a', b', l', d') ∷ xs) v =
    (record q { head = a'; count = q.count - 1 }, ground arith, ground arith, refl, refl)

pub que_dequeue_empty : (q : Que) → Holds q [] → que_dequeue q ≡ ok (q, null)
unfolding que_dequeue
que_dequeue_empty q v = ground arith
