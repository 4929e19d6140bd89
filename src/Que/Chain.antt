-- ===== src/Que/Chain.antt =====
-- The linked list of a queue: distinct nodes, from the head to the tail by `next`.
use gnuweeb_bot.Base.{
  ℕ, ◌≡◌, ◌≢◌, refl, sym, Option, some, none, List, [], ◌∷◌, ◌++◌, All, Bytes, arith,
}
use gnuweeb_bot.Que.{Ptr, null, Node, Heap, write, node}

-- Address, `prev`, `len` and bytes of each node, in order.
abbrev pub Cell : Type 0
Cell = Ptr × Ptr × ℕ × Bytes

-- `p` leads through the nodes `xs` to the last, at `t`; both are NULL where there is no node.
abbrev pub Chain : Heap → Ptr → List Cell → Ptr → Type 0
Chain h p [] t = (p ≡ null) × (t ≡ null)
Chain h p ((a, b, l, d) ∷ []) t = (p ≡ a) × (a ≢ null) × (h a ≡ some (node null b l d)) × (t ≡ a)
Chain h p ((a, b, l, d) ∷ (a', b', l', d') ∷ xs) t =
    (p ≡ a) × (a ≢ null) × (h a ≡ some (node a' b l d)) × Chain h a' ((a', b', l', d') ∷ xs) t

abbrev pub Avoids : Ptr → List Cell → Type 0
Avoids a = All (λ c. c.0 ≢ a)

abbrev pub Distinct : List Cell → Type 0
Distinct [] = Unit
Distinct ((a, b, l, d) ∷ xs) = Avoids a xs × Distinct xs

-- A heap that agrees at the nodes of a chain has the chain too.
pub frame :
    (h g : Heap) (p t : Ptr) (xs : List Cell)
    → All (λ c. g c.0 ≡ h c.0) xs
    → Chain h p xs t
    → Chain g p xs t
frame h g p t [] same c = c
frame h g p t ((a, b, l, d) ∷ []) same c = ground arith
frame h g p t ((a, b, l, d) ∷ (a', b', l', d') ∷ xs) same c =
    (c.0, c.1, ground arith, frame h g a' t ((a', b', l', d') ∷ xs) same.1 c.3)

pub same-write :
    (h : Heap) (a : Ptr) (v : Option Node) (xs : List Cell)
    → Avoids a xs
    → All (λ c. write h a v c.0 ≡ h c.0) xs
same-write h a v [] out = tt
same-write h a v (x ∷ xs) out = (ground arith, same-write h a v xs out.1)

pub frame-write :
    (h : Heap) (a : Ptr) (v : Option Node) (p t : Ptr) (xs : List Cell)
    → Avoids a xs
    → Chain h p xs t
    → Chain (write h a v) p xs t
frame-write h a v p t xs out c = frame h _ p t xs (same-write h a v xs out) c

-- Nodes are allocated, so an unallocated address is none of them.
pub Avoids-of_none :
    (h : Heap) (p t f : Ptr) (xs : List Cell) → Chain h p xs t → h f ≡ none → Avoids f xs
Avoids-of_none h p t f [] c e = tt
Avoids-of_none h p t f ((a, b, l, d) ∷ []) c e = ((λ q. ground arith), tt)
Avoids-of_none h p t f ((a, b, l, d) ∷ (a', b', l', d') ∷ xs) c e =
    ((λ q. ground arith), Avoids-of_none h a' t f ((a', b', l', d') ∷ xs) c.3 e)

-- The last address of a chain is one of its nodes.
last_ne :
    (h : Heap) (p t a : Ptr) (x : Cell) (xs : List Cell)
    → Chain h p (x ∷ xs) t
    → Avoids a (x ∷ xs)
    → a ≢ t
last_ne h p t a (q, b, l, d) [] c out = λ e. out.0 (ground arith)
last_ne h p t a (q, b, l, d) ((q', b', l', d') ∷ xs) c out =
    last_ne h q' t a (q', b', l', d') xs c.3 out.1

-- What holds at the last node of a nonempty chain.
pub last_node :
    (h : Heap) (p t : Ptr) (x : Cell) (xs : List Cell)
    → Chain h p (x ∷ xs) t
    → (n : Node) × (h t ≡ some n) × (t ≢ null)
last_node h p t (a, b, l, d) [] c = (node null b l d, ground arith, ground arith)
last_node h p t (a, b, l, d) ((a', b', l', d') ∷ xs) c = last_node h a' t (a', b', l', d') xs c.3

-- `g` is `h` with a new last node `f`, linked behind `t`.
pub extend :
    (h g : Heap) (p t f b l : ℕ) (d : Bytes) (n : Node) (x : Cell) (xs : List Cell)
    → Chain h p (x ∷ xs) t
    → Distinct (x ∷ xs)
    → Avoids f (x ∷ xs)
    → f ≢ null
    → g f ≡ some (node null b l d)
    → h t ≡ some n
    → g t ≡ some (record n { next = f })
    → ((a : Ptr) → a ≢ t → a ≢ f → g a ≡ h a)
    → Chain g p ((x ∷ xs) ++ (f, b, l, d) ∷ []) f
extend h g p t f b l d n (a, b₁, l₁, d₁) [] c apart out nn new old upd same =
    (c.0, c.1, ground arith, (refl, nn, new, refl))
extend h g p t f b l d n (a, b₁, l₁, d₁) (y ∷ ys) c apart out nn new old upd same = (
  c.0,
  c.1,
  ground (arith, same a (last_ne h y.0 t a y ys c.3 (apart.0)), out.0, c.2),
  extend h g y.0 t f b l d n y ys c.3 apart.1 out.1 nn new old upd same,
)

pub Avoids-snoc :
    (a : Ptr) (xs : List Cell) (y : Cell) → Avoids a xs → y.0 ≢ a → Avoids a (xs ++ y ∷ [])
Avoids-snoc a [] y out ne = (ne, tt)
Avoids-snoc a (x ∷ xs) y out ne = (out.0, Avoids-snoc a xs y out.1 ne)

pub Distinct-snoc :
    (xs : List Cell) (y : Cell) → Distinct xs → Avoids y.0 xs → Distinct (xs ++ y ∷ [])
Distinct-snoc [] y apart out = (tt, tt)
Distinct-snoc (x ∷ xs) y apart out =
    (Avoids-snoc x.0 xs y apart.0 (λ e. out.0 (sym e)), Distinct-snoc xs y apart.1 out.1)

pub head_node :
    (h : Heap) (p t : Ptr) (x : Cell) (xs : List Cell)
    → Chain h p (x ∷ xs) t
    → (p ≡ x.0) × (p ≢ null)
head_node h p t (a, b, l, d) [] c = (c.0, ground arith)
head_node h p t (a, b, l, d) ((a', b', l', d') ∷ xs) c = (c.0, ground arith)
