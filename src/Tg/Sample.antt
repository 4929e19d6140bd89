-- ===== src/Tg/Sample.antt =====
-- A small JSON type for the tests, and messages in it.
use gnuweeb_bot.Base.{
  ℕ, zero, suc, ◌+◌, ◌<◌, ◌≡◌, Bool, true, false, ◌&&◌, Option, none, some, [], ◌∷◌, Bytes, codes,
  arith, ◌==◌, if◌then◌else◌, inl, inr, ◌⊎◌, ap,
}
use gnuweeb_bot.Base.Int.{pos}
use gnuweeb_bot.Tg.Json.{JsonApi}
use gnuweeb_bot.Tg.Event.{Tgev, Head, zero_head, zero_from, zero_chat, supergroup, text, node, null}

-- JSON as a tree; the keys of an array are not read.
mutual
  pub data Doc : Type 0 where
    number : ℕ → Doc
    str : Bytes → Doc
    object : Members → Doc
    array : Members → Doc

  pub data Members : Type 0 where
    end : Members
    member : Bytes → Doc → Members → Members

abbrev pub same : Bytes → Bytes → Bool
same [] [] = true
same [] (c ∷ t) = false
same (c ∷ s) [] = false
same (c ∷ s) (d ∷ t) = (c == d) && same s t

abbrev pub find : Members → Bytes → Option Doc
find end key = none
find (member k v ms) key = let rest = find ms key in if same k key then some v else rest

abbrev pub get_ex : Doc → Bytes → Option Doc
get_ex (number n) key = none
get_ex (str s) key = none
get_ex (object ms) key = find ms key
get_ex (array ms) key = none

abbrev pub get_string : Doc → Option Bytes
get_string (number n) = none
get_string (str s) = some s
get_string (object ms) = none
get_string (array ms) = none

abbrev pub get_number : Doc → ℕ
get_number (number n) = n
get_number (str s) = 0
get_number (object ms) = 0
get_number (array ms) = 0

abbrev pub count : Members → ℕ
count end = 0
count (member k v ms) = suc (count ms)

abbrev pub nth : Members → ℕ → Doc
nth end i = number 0
nth (member k v ms) zero = v
nth (member k v ms) (suc i) = nth ms i

abbrev pub members : Doc → Members
members (number n) = end
members (str s) = end
members (object ms) = ms
members (array ms) = ms

abbrev pub is_array : Doc → Bool
is_array (number n) = false
is_array (str s) = false
is_array (object ms) = false
is_array (array ms) = true

abbrev pub tree : JsonApi
tree = record {
  Json = Doc;
  is_null = λ j. false;
  get_ex = get_ex;
  get_string = get_string;
  get_uint64 = get_number;
  get_int64 = λ j. pos (get_number j);
  get_boolean = λ j. get_number j == 1;
  is_array = is_array;
  array_length = λ j. count (members j);
  array_get_idx = λ j i. nth (members j) i;
  calloc_ok = λ j. true;
  malloc_ok = λ j. true;
}

abbrev mutual
  pub depth : Doc → ℕ
  depth (number n) = 0
  depth (str s) = 0
  depth (object ms) = depths ms
  depth (array ms) = depths ms

  pub depths : Members → ℕ
  depths end = 0
  depths (member k v ms) = suc (depth v + depths ms)

-- A value that is found is the member's own or one of the rest.
found :
    (b : Bool) (v : Doc) (o : Option Doc) (r : Doc)
    → (if b then some v else o) ≡ some r
    → (v ≡ r) ⊎ (o ≡ some r)
found true v o r e = inl (some_injective e)
  where
    some_injective : {a b : Doc} → some a ≡ some b → a ≡ b
    some_injective q = cc
found false v o r e = inr e

find-depth : (ms : Members) (key : Bytes) (r : Doc) → find ms key ≡ some r → depth r < depths ms
find-depth end key r e = ground arith
find-depth (member k v ms) key r e = elim (found (same k key) v (find ms key) r e) [
  | inl here ↦ let eq : depth v ≡ depth r = ap depth here in omega arith
  | inr there ↦ let h : depth r < depths ms = find-depth ms key r there in omega arith
]

pub get_ex-depth : (j r : Doc) → get_ex j (codes "reply_to_message") ≡ some r → depth r < depth j
get_ex-depth (number n) r e = ground arith
get_ex-depth (str s) r e = ground arith
get_ex-depth (object ms) r e = find-depth ms (codes "reply_to_message") r e
get_ex-depth (array ms) r e = ground arith

abbrev pub ada : Doc
ada = object (
    member (codes "id") (number 7) (
      member (codes "first_name") (str (codes "Ada"))
        (member (codes "language_code") (str (codes "en-GB")) end)))

abbrev pub club : Doc
club = object (
    member (codes "id") (number 100) (
      member (codes "type") (str (codes "supergroup"))
        (member (codes "title") (str (codes "club")) end)))

abbrev pub common : ℕ → Members → Members
common id rest = member (codes "message_id") (number id) (
    member (codes "from") ada
      (member (codes "chat") club (member (codes "date") (number 1000) rest)))

abbrev pub hello : Doc
hello = object (common 41 (member (codes "text") (str (codes "hello")) end))

abbrev pub ban : Doc
ban = object (
    common 42
      (member (codes "text") (str (codes "/ban")) (member (codes "reply_to_message") hello end)))

abbrev pub head_at : ℕ → Head
head_at id = record zero_head {
  msg_id = id;
  from = record zero_from { id = 7; first_name = some (codes "Ada"); lang = codes "en-" };
  chat = record zero_chat { id = pos 100; title = some (codes "club"); type = supergroup };
  date = pos 1000;
}

abbrev pub hello_event : Tgev
hello_event = text (head_at 41) (some (codes "hello")) [] null

abbrev pub ban_event : Tgev
ban_event = text (head_at 42) (some (codes "/ban")) [] (node hello_event)
