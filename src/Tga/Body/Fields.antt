-- ===== src/Tga/Body/Fields.antt =====
-- The bodies fit in their buffers, and a receiver reads from them the fields of their structs.
use gnuweeb_bot.Base.{
  ℕ, ◌+◌, ◌≤◌, ◌<◌, ◌≡◌, ◌∙◌, refl, sym, ap, Bool, true, false, List, [], ◌∷◌, ◌++◌, append-nil,
  arith, le→leb, ◌==◌, if◌then◌else◌, length, length-append, Bytes, codes, Outcome, ok, All, not,
  ◌&&◌, ◌||◌,
}
use gnuweeb_bot.Base.Int.{ℤ, pos, negsuc}
use gnuweeb_bot.Text.Decimal.{
  print_u64, print_i64, IsDigit, print_u64-IsDigit, length-print_u64-le, length-print_i64-le,
}
use gnuweeb_bot.Tga.Form.{Field, form_fields, IsName, IsValue, form_fields_one, form_fields-append}
use gnuweeb_bot.Tga.Body.{
  DeleteMsg, PinMsg, UnpinMsg, UnbanMember, KickMember, put, to_u64, is_zero, print_bool,
  chat_field, delete_msg_body, pin_chat_msg_body, unpin_chat_msg_body, unban_chat_member_body,
  kick_chat_member_body, get_chat_admins_body,
}

unfoldable pub is_word : Bytes → Bool
is_word [] = true
is_word (c ∷ s) = not (c == b'&' || c == b'=') && is_word s

-- A literal is a name, by evaluation.
pub word_IsName : (s : Bytes) → is_word s ≡ true → All IsName s
unfolding is_word
word_IsName [] h = tt
word_IsName (c ∷ s) h = (((λ e. ground arith), (λ e. ground arith)), word_IsName s (ground arith))

digits-IsValue : (s : Bytes) → All IsDigit s → All IsValue s
digits-IsValue [] h = tt
digits-IsValue (c ∷ s) h = ((λ e. omega (arith, h.0)), digits-IsValue s h.1)

pub print_u64-IsValue : (v : ℕ) → All IsValue (print_u64 v)
print_u64-IsValue v = digits-IsValue (print_u64 v) (print_u64-IsDigit v)

print_i64-IsValue : (z : ℤ) → All IsValue (print_i64 z)
unfolding print_i64
print_i64-IsValue (pos n) = print_u64-IsValue n
print_i64-IsValue (negsuc n) = ((λ e. omega (arith, e)), print_u64-IsValue (n + 1))

print_bool-IsValue : (b : Bool) → All IsValue (print_bool b)
print_bool-IsValue true = ((λ e. omega (arith, e)), tt)
print_bool-IsValue false = ((λ e. omega (arith, e)), tt)

-- The body is made inside of its buffer, and has the fields.
abbrev pub Tells : Outcome Bytes → List Field → Type 0
Tells m fs = (b : Bytes) × (m ≡ ok b) × (form_fields b ≡ fs)

pub put_ok :
    (size : ℕ) (p s : Bytes) (extra : ℕ)
    → length p + length s + extra ≤ size
    → put size p s extra ≡ ok (p ++ s)
unfolding put
put_ok size p s extra h = rw (le→leb (length p + length s + extra) size h) refl

-- A field behind a text that is a body.
field_behind :
    (p word v : Bytes) (fs : List Field)
    → is_word word ≡ true
    → All IsValue v
    → form_fields p ≡ fs
    → form_fields (p ++ (b'&' ∷ (word ++ (b'=' ∷ v)))) ≡ fs ++ (word, v) ∷ []
field_behind p word v fs hw hv e =
    form_fields-append p word v (word_IsName word hw) hv
    ∙ ap (λ (gs : List Field). gs ++ (word, v) ∷ []) e

chat_field_lem : (z : ℤ) → form_fields (chat_field z) ≡ (codes "chat_id", print_i64 z) ∷ []
unfolding is_word
chat_field_lem z =
    form_fields_one (codes "chat_id") (print_i64 z) (word_IsName (codes "chat_id") refl)
      (print_i64-IsValue z)

length-chat_field-le : (z : ℤ) → length (chat_field z) ≤ 29
length-chat_field-le z =
    omega (arith, length-append (codes "chat_id=") (print_i64 z), length-print_i64-le z)

-- `p` is a body of at most `n` bytes with the fields `fs`.
pub record Part (p : Bytes) (n : ℕ) (fs : List Field) : Type 0 where
  pub size : length p ≤ n
  pub fields : form_fields p ≡ fs

pub chat_field-Part : (z : ℤ) → Part (chat_field z) 29 ((codes "chat_id", print_i64 z) ∷ [])
chat_field-Part z = record { size = length-chat_field-le z; fields = chat_field_lem z }

-- A field behind it, whose value has at most `k` bytes.
pub with_field :
    {p : Bytes} {n : ℕ} {fs : List Field} (word v : Bytes) (k : ℕ)
    → Part p n fs
    → is_word word ≡ true
    → All IsValue v
    → length v ≤ k
    → Part (p ++ (b'&' ∷ (word ++ (b'=' ∷ v)))) (n + length word + k + 2) (fs ++ (word, v) ∷ [])
with_field {p} word v k part hw hv size = record {
  size = omega (
    arith,
    part.size,
    length-append p (b'&' ∷ (word ++ (b'=' ∷ v))),
    length-append word (b'=' ∷ v),
  );
  fields = field_behind p word v _ hw hv part.fields;
}

with_u64 :
    {p : Bytes} {n : ℕ} {fs : List Field} (word : Bytes) (v : ℕ)
    → Part p n fs
    → is_word word ≡ true
    → Part
        (p ++ (b'&' ∷ (word ++ (b'=' ∷ print_u64 v))))
        (n + length word + 20 + 2)
        (fs ++ (word, print_u64 v) ∷ [])
with_u64 word v part hw =
    with_field word (print_u64 v) 20 part hw (print_u64-IsValue v) (length-print_u64-le v)

length-print_bool-le : (b : Bool) → length (print_bool b) ≤ 1
length-print_bool-le true = omega arith
length-print_bool-le false = omega arith

with_bool :
    {p : Bytes} {n : ℕ} {fs : List Field} (word : Bytes) (b : Bool)
    → Part p n fs
    → is_word word ≡ true
    → Part
        (p ++ (b'&' ∷ (word ++ (b'=' ∷ print_bool b))))
        (n + length word + 1 + 2)
        (fs ++ (word, print_bool b) ∷ [])
with_bool word b part hw =
    with_field word (print_bool b) 1 part hw (print_bool-IsValue b) (length-print_bool-le b)

-- A body that is printed at once.
Part-Tells :
    (p : Bytes) (n size : ℕ) (fs : List Field) → Part p n fs → n < size → Tells (put size [] p 1) fs
Part-Tells p n size fs part room = (p, put_ok size [] p 1 (omega (arith, part.size)), part.fields)

-- The body of `deleteMessage`: the chat and the message.
pub delete_msg_body-Tells :
    (ctx : DeleteMsg)
    → Tells (delete_msg_body ctx) (
        (codes "chat_id", print_i64 ctx.chat_id)
        ∷ (codes "message_id", print_u64 ctx.message_id)
        ∷ [])
unfolding delete_msg_body is_word
delete_msg_body-Tells ctx =
    Part-Tells _ _ 128 _
      (with_u64 (codes "message_id") ctx.message_id (chat_field-Part ctx.chat_id) refl)
      (omega arith)

pub unpin_chat_msg_body-Tells :
    (ctx : UnpinMsg)
    → Tells (unpin_chat_msg_body ctx) (
        (codes "chat_id", print_i64 ctx.chat_id)
        ∷ (codes "message_id", print_u64 ctx.message_id)
        ∷ [])
unfolding unpin_chat_msg_body is_word
unpin_chat_msg_body-Tells ctx =
    Part-Tells _ _ 128 _
      (with_u64 (codes "message_id") ctx.message_id (chat_field-Part ctx.chat_id) refl)
      (omega arith)

pub pin_chat_msg_body-Tells :
    (ctx : PinMsg)
    → Tells (pin_chat_msg_body ctx) (
        (codes "chat_id", print_i64 ctx.chat_id)
        ∷ (codes "message_id", print_u64 ctx.message_id)
        ∷ (codes "disable_notification", print_bool ctx.disable_notification)
        ∷ [])
unfolding pin_chat_msg_body is_word
pin_chat_msg_body-Tells ctx =
    Part-Tells _ _ 256 _
      (with_bool (codes "disable_notification") ctx.disable_notification
        (with_u64 (codes "message_id") ctx.message_id (chat_field-Part ctx.chat_id) refl) refl)
      (omega arith)

pub unban_chat_member_body-Tells :
    (ctx : UnbanMember)
    → Tells (unban_chat_member_body ctx) (
        (codes "chat_id", print_i64 ctx.chat_id)
        ∷ (codes "user_id", print_u64 ctx.user_id)
        ∷ (codes "only_if_banned", print_bool ctx.only_if_banned)
        ∷ [])
unfolding unban_chat_member_body is_word
unban_chat_member_body-Tells ctx =
    Part-Tells _ _ 256 _
      (with_bool (codes "only_if_banned") ctx.only_if_banned
        (with_u64 (codes "user_id") ctx.user_id (chat_field-Part ctx.chat_id) refl) refl)
      (omega arith)

pub get_chat_admins_body-Tells :
    (chat_id : ℤ) → Tells (get_chat_admins_body chat_id) ((codes "chat_id", print_i64 chat_id) ∷ [])
unfolding get_chat_admins_body
get_chat_admins_body-Tells chat_id = Part-Tells _ _ 64 _ (chat_field-Part chat_id) (omega arith)

-- A field that the code leaves out under a condition.
abbrev pub unless : Bool → Field → List Field
unless skip f = if skip then [] else f ∷ []

-- The fields of a text behind which such a field is put.
pub record Grown (m : Outcome Bytes) (n : ℕ) (fs : List Field) : Type 0 where
  pub text : Bytes
  pub run : m ≡ ok text
  pub part : Part text n fs

pub put-unless-Grown :
    (size : ℕ) (skip : Bool) {p : Bytes} {n : ℕ} {fs : List Field} (word v : Bytes) (k : ℕ)
    → Part p n fs
    → is_word word ≡ true
    → All IsValue v
    → length v ≤ k
    → n + length word + k + 2 < size
    → Grown
        (if skip then ok p else put size p (b'&' ∷ (word ++ (b'=' ∷ v))) 1)
        (n + length word + k + 2)
        (fs ++ unless skip (word, v))
put-unless-Grown size true {p} {n} {fs} word v k part hw hv le room = record {
  text = p;
  run = refl;
  part = record { size = omega (arith, part.size); fields = part.fields ∙ sym (append-nil fs) };
}
put-unless-Grown size false {p} word v k part hw hv le room =
    let grown = with_field word v k part hw hv le in
    record {
      text = p ++ (b'&' ∷ (word ++ (b'=' ∷ v)));
      run =
          put_ok size p (b'&' ∷ (word ++ (b'=' ∷ v))) 1
            (omega (arith, grown.size, length-append p (b'&' ∷ (word ++ (b'=' ∷ v)))));
      part = grown;
    }

-- The body of `kickChatMember`: the chat, the user, the date unless it is 0, and that messages are
-- kept unless they are revoked.
pub kick_chat_member_body-Tells :
    (ctx : KickMember)
    → Tells (kick_chat_member_body ctx) (
        (codes "chat_id", print_i64 ctx.chat_id)
          ∷ (codes "user_id", print_u64 ctx.user_id)
          ∷ unless (is_zero ctx.until_date) (codes "until_date", print_u64 (to_u64 ctx.until_date))
        ++ unless ctx.revoke_msg (codes "revoke_messages", codes "0"))
unfolding kick_chat_member_body is_word
kick_chat_member_body-Tells ctx =
    let (p, run, e) = Part-Tells _ _ 512 _ start (omega arith) in
    let dated =
      put-unless-Grown 512 (is_zero ctx.until_date) (codes "until_date")
        (print_u64 (to_u64 ctx.until_date)) 20 start refl
        (print_u64-IsValue (to_u64 ctx.until_date)) (length-print_u64-le (to_u64 ctx.until_date))
        (omega arith) in
    let revoked =
      put-unless-Grown 512 ctx.revoke_msg (codes "revoke_messages") (codes "0") 1 dated.part refl
        ((λ z. ground arith), tt) (omega arith) (omega arith) in
    rw
      (
        put_ok 512 [] (chat_field ctx.chat_id ++ (codes "&user_id=" ++ print_u64 ctx.user_id)) 1
            (omega (arith, start.size)),
        dated.run,
        revoked.run,
      )
      (revoked.text, refl, revoked.part.fields)
  where
    start :
        Part
          (chat_field ctx.chat_id ++ (codes "&user_id=" ++ print_u64 ctx.user_id))
          58
          ((codes "chat_id", print_i64 ctx.chat_id) ∷ (codes "user_id", print_u64 ctx.user_id) ∷ [])
    start = with_u64 (codes "user_id") ctx.user_id (chat_field-Part ctx.chat_id) refl
