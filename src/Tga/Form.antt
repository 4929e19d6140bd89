-- ===== src/Tga/Form.antt =====
-- The bodies `application/x-www-form-urlencoded` as their receiver reads them: fields between `&`, a
-- name and a percent-encoded value around `=`.
use gnuweeb_bot.Base.{
  ℕ, ◌≡◌, ◌≢◌, ◌∙◌, refl, sym, ap, Bool, true, false, List, [], ◌∷◌, ◌++◌, append_assoc, append-nil,
  arith, ◌==◌, if◌then◌else◌, Bytes, All,
}

-- A name and a value as it stands in the body.
abbrev pub Field : Type 0
Field = Bytes × Bytes

-- What is being read: the name, or the value of a name.
pub data Reading : Type 0 where
  name : Bytes → Reading
  value : Bytes → Bytes → Reading

abbrev closed : Reading → Field
closed (name k) = (k, [])
closed (value k v) = (k, v)

abbrev extended : Reading → ℕ → Reading
extended (name k) c = name (k ++ c ∷ [])
extended (value k v) c = value k (v ++ c ∷ [])

abbrev is_name : Reading → Bool
is_name (name k) = true
is_name (value k v) = false

read_fields : Reading → Bytes → List Field
read_fields r [] = closed r ∷ []
read_fields (name k) (c ∷ s) =
    let next = read_fields (name []) s in
    let values = read_fields (value k []) s in
    let rest = read_fields (name (k ++ c ∷ [])) s in
    if c == b'&' then (k, []) ∷ next else if c == b'=' then values else rest
read_fields (value k v) (c ∷ s) =
    let next = read_fields (name []) s in
    let rest = read_fields (value k (v ++ c ∷ [])) s in if c == b'&' then (k, v) ∷ next else rest

-- The fields of a body that is not empty.
pub form_fields : Bytes → List Field
unfolding read_fields
form_fields s = read_fields (name []) s

abbrev pub IsName : ℕ → Type 0
IsName c = (c ≢ b'&') × (c ≢ b'=')

abbrev pub IsValue : ℕ → Type 0
IsValue c = c ≢ b'&'

read_name :
    (k n s : Bytes) → All IsName n → read_fields (name k) (n ++ s) ≡ read_fields (name (k ++ n)) s
unfolding read_fields
read_name k [] s h = rw append-nil refl
read_name k (c ∷ n) s h =
    ground (arith, h.0, read_name (k ++ c ∷ []) n s h.1, append_assoc k (c ∷ []) n)

read_value :
    (k v w s : Bytes)
    → All IsValue w
    → read_fields (value k v) (w ++ s) ≡ read_fields (value k (v ++ w)) s
unfolding read_fields
read_value k v [] s h = rw append-nil refl
read_value k v (c ∷ w) s h =
    ground (arith, h.0, read_value k (v ++ c ∷ []) w s h.1, append_assoc v (c ∷ []) w)

read_written :
    (n v : Bytes)
    → All IsName n
    → All IsValue v
    → read_fields (name []) (n ++ (b'=' ∷ v)) ≡ (n, v) ∷ []
unfolding read_fields
read_written n v hn hv =
    read_name [] n (b'=' ∷ v) hn
    ∙ ap (read_fields (value n [])) (sym (append-nil v))
    ∙ read_value n [] v [] hv
    ∙ unfold read_fields in refl

-- A body of one field.
pub form_fields_one :
    (n v : Bytes) → All IsName n → All IsValue v → form_fields (n ++ (b'=' ∷ v)) ≡ (n, v) ∷ []
unfolding form_fields
form_fields_one n v hn hv = read_written n v hn hv

read_fields-append :
    (r : Reading) (p s : Bytes)
    → read_fields r (p ++ (b'&' ∷ s)) ≡ read_fields r p ++ read_fields (name []) s
unfolding read_fields
read_fields-append (name k) [] s = refl
read_fields-append (value k v) [] s = refl
read_fields-append (name k) (c ∷ p) s = ground (
  arith,
  read_fields-append (name []) p s,
  read_fields-append (value k []) p s,
  read_fields-append (name (k ++ c ∷ [])) p s,
)
read_fields-append (value k v) (c ∷ p) s =
    ground (arith, read_fields-append (name []) p s, read_fields-append (value k (v ++ c ∷ [])) p s)

-- A field behind a body.
pub form_fields-append :
    (p n v : Bytes)
    → All IsName n
    → All IsValue v
    → form_fields (p ++ (b'&' ∷ (n ++ (b'=' ∷ v)))) ≡ form_fields p ++ (n, v) ∷ []
unfolding form_fields
form_fields-append p n v hn hv =
    read_fields-append (name []) p (n ++ (b'=' ∷ v))
    ∙ ap (λ (fs : List Field). form_fields p ++ fs) (read_written n v hn hv)
