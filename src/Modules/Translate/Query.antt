-- ===== src/Modules/Translate/Query.antt =====
-- What the query of the translation service is made of, and that it fits in its buffer.
use gnuweeb_bot.Base.{
  ℕ, ◌+◌, ◌-◌, ◌*◌, ◌≤◌, ◌<◌, ◌≡◌, ◌≢◌, refl, true, false, Bool-cases, inl, inr, Option, none, some,
  [], ◌∷◌, ◌++◌, Bytes, codes, drop, length, length-append, strnlen, ltb, ◌==◌, Outcome, ok, le→leb,
  arith, ◌>>=◌,
}
use gnuweeb_bot.Text.UrlEncode.{urlencode, length-urlencode-lt}
use gnuweeb_bot.Admin.{is_ws, skip_ws, head_byte}
use gnuweeb_bot.Tg.Event.{Tgev, Pointer, nothing, wild, event, tge_get_reply_to, tge_get_text}
use gnuweeb_bot.Modules.Translate.{
  payload_size, Parsed, cancel, request, put, put_encoded, take_code, Replied, out_replied_2_arg,
  out_replied_1_arg, out_replied_0_arg, with_text, with_target, with_source, with_args,
  replied_text, after_tr, named_tr, parse_command, skip_sign, too_long,
}

-- A language code as it stands in the query: at most 31 bytes, each encoded.
abbrev IsCode : Bytes → Type 0
IsCode c = (back : Bytes) × (n : ℕ) × (n < 32) × (c ≡ urlencode back n true)

-- A text as it stands in the query.
abbrev IsText : Bytes → Type 0
IsText t = (s : Bytes) × (n : ℕ) × (n < 8192) × (t ≡ urlencode s n true)

-- The two forms of a query.
pub data IsQuery : Bytes → Type 0 where
  both :
      (fr to t : Bytes)
      → IsCode fr
      → IsCode to
      → IsText t
      → IsQuery (((((codes "fr=" ++ fr) ++ codes "&to=") ++ to) ++ codes "&text=") ++ t)
  auto :
      (to t : Bytes)
      → IsCode to
      → IsText t
      → IsQuery ((((codes "to=" ++ to) ++ codes "&fr=auto") ++ codes "&text=") ++ t)

-- The query is in one of the forms, and its buffer has room for a 0 behind it.
abbrev pub Fine : Parsed → Type 0
Fine cancel = Unit {0}
Fine (request p evt) = IsQuery p × (length p < payload_size)

abbrev pub Fits : Outcome Parsed → Type 0
Fits m = (r : Parsed) × (m ≡ ok r) × Fine r

Fits-cancel : Fits (ok cancel)
Fits-cancel = (cancel, refl, tt)

put-Fits :
    (p s : Bytes) (extra : ℕ) (k : Bytes → Outcome Parsed)
    → length p + length s + extra ≤ payload_size
    → Fits (k (p ++ s))
    → Fits (put p s extra >>= k)
put-Fits p s extra k room fits = rw (le→leb (length p + length s + extra) payload_size room) fits

put_encoded-Fits :
    (p s : Bytes) (n : ℕ) (k : Bytes → Outcome Parsed)
    → length p + n * 3 + 1 ≤ payload_size
    → Fits (k (p ++ urlencode s n true))
    → Fits (put_encoded p s n >>= k)
put_encoded-Fits p s n k room fits =
    put-Fits p (urlencode s n true) 1 k (omega (arith, length-urlencode-lt s n true)) fits

-- `p` becomes a query with a text behind it, and has room for it.
record Open (p : Bytes) : Type 0 where
  closes : (t : Bytes) → IsText t → IsQuery ((p ++ codes "&text=") ++ t)
  short : length p ≤ 4096

-- The text at the end of a query.
text-Fits :
    (p s : Bytes) (n : ℕ) (evt : Tgev)
    → Open p
    → n < 8192
    → Fits (put p (codes "&text=") 2 >>= λ q. put_encoded q s n >>= λ r. ok (request r evt))
text-Fits p s n evt open_p h = put-Fits p (codes "&text=") 2 _ (omega (arith, open_p.short)) (
    put_encoded-Fits (p ++ codes "&text=") s n _
      (omega (arith, open_p.short, length-append p (codes "&text=")))
      (_, refl, (open_p.closes (urlencode s n true) (s, n, h, refl), size)))
  where
    size : length ((p ++ codes "&text=") ++ urlencode s n true) < payload_size
    size = omega (
      arith,
      open_p.short,
      length-append p (codes "&text="),
      length-urlencode-lt s n true,
      length-append (p ++ codes "&text=") (urlencode s n true),
    )

too_long-lt : (n : ℕ) → too_long n ≡ false → n < 8192
too_long-lt n h = ground arith

out_replied_2_arg-Fits : (p : Bytes) (rt : Replied) → Open p → Fits (out_replied_2_arg p rt)
unfolding out_replied_2_arg
out_replied_2_arg-Fits p none open_p = Fits-cancel
out_replied_2_arg-Fits p (some (tx, evt)) open_p = elim (Bool-cases (ltb 8191 (strnlen tx 8192))) [
  | inl long ↦ rw long Fits-cancel
  | inr short ↦
      rw short (text-Fits p tx (strnlen tx 8192) evt open_p (too_long-lt (strnlen tx 8192) short))
]

code-size : (c : Bytes) → IsCode c → length c ≤ 93
code-size c (back, n, h, e) = rw e (omega (arith, length-urlencode-lt back n true))

out_replied_1_arg-Fits :
    (to : Bytes) (rt : Replied) → IsCode to → Fits (out_replied_1_arg (codes "to=" ++ to) rt)
unfolding out_replied_1_arg
out_replied_1_arg-Fits to rt code =
    put-Fits (codes "to=" ++ to) (codes "&fr=auto") 0 _ (omega (arith, code-size to code)) (
      out_replied_2_arg-Fits ((codes "to=" ++ to) ++ codes "&fr=auto") rt (record {
        closes = λ t q. auto to t code q;
        short =
            omega (arith, code-size to code, length-append (codes "to=" ++ to) (codes "&fr=auto"));
      }))

english : IsCode (codes "en")
unfolding urlencode
english = (codes "en", 2, omega arith, refl)

out_replied_0_arg-Fits : (rt : Replied) → Fits (out_replied_0_arg rt)
unfolding out_replied_0_arg
out_replied_0_arg-Fits rt = out_replied_1_arg-Fits (codes "en") rt english

take_code-lt :
    (rcx : ℕ) (tx : Bytes) (n : ℕ) (rest : Bytes)
    → rcx < 32
    → take_code rcx tx ≡ some (n, rest)
    → n < 32
unfolding take_code
take_code-lt rcx [] n rest h e = ground arith
take_code-lt rcx (c ∷ tx) n rest h e = ground (arith, take_code-lt (rcx + 1) tx n rest)

module _ (left : Bytes → ℕ) (left-lt : (tx : Bytes) → left tx < 8192) (evt : Tgev)
    (rt : Replied) where
  with_text-Fits : (p tx : Bytes) → Open p → Fits (with_text left evt rt p tx)
  unfolding with_text
  with_text-Fits p tx open_p = elim (Bool-cases (head_byte tx == 0)) [
    | inl ends ↦ rw ends (out_replied_2_arg-Fits p rt open_p)
    | inr more ↦ rw more (text-Fits p tx (left tx) evt open_p (left-lt tx))
  ]

  with_target-Fits :
      (fr back : Bytes) (found : Option (ℕ × Bytes))
      → IsCode fr
      → ((n : ℕ) (rest : Bytes) → found ≡ some (n, rest) → n < 32)
      → Fits (with_target left evt rt (codes "fr=" ++ fr) back found)
  with_target-Fits fr back none code bound = Fits-cancel
  with_target-Fits fr back (some (n, tx)) code bound =
      put-Fits (codes "fr=" ++ fr) (codes "&to=") 0 _ (omega (arith, code-size fr code)) (
        put_encoded-Fits p back n _ (omega (arith, small, with_name, code-size fr code)) (
          with_text-Fits (p ++ urlencode back n true) (skip_ws tx) (record {
            closes = λ t q. both fr (urlencode back n true) t code to q;
            short = omega (
              arith,
              with_name,
              code-size fr code,
              code-size _ to,
              length-append p (urlencode back n true),
            );
          })))
    where
      small : n < 32
      small = bound n tx refl

      to : IsCode (urlencode back n true)
      to = (back, n, small, refl)

      p : Bytes
      p = (codes "fr=" ++ fr) ++ codes "&to="

      with_name : length ((codes "fr=" ++ fr) ++ codes "&to=") ≡ 3 + length fr + 4
      with_name = omega (arith, length-append (codes "fr=" ++ fr) (codes "&to="))

  with_source-Fits :
      (back : Bytes) (found : Option (ℕ × Bytes))
      → ((n : ℕ) (rest : Bytes) → found ≡ some (n, rest) → n < 32)
      → Fits (with_source left evt rt back found)
  with_source-Fits back none bound = Fits-cancel
  with_source-Fits back (some (n, tx)) bound =
      put_encoded-Fits (codes "fr=") back n _ (omega (arith, bound n tx refl))
        (elim (Bool-cases (head_byte (skip_ws tx) == 0)) [
          | inl ends ↦
              rw ends
                (out_replied_1_arg-Fits (urlencode back n true) rt (back, n, bound n tx refl, refl))
          | inr more ↦ rw more (
              with_target-Fits (urlencode back n true) (skip_ws tx) (take_code 0 (skip_ws tx))
                (back, n, bound n tx refl, refl)
                λ m rest e. take_code-lt 0 (skip_ws tx) m rest (omega arith) e)
        ])

  with_args-Fits : (tx : Bytes) → Fits (with_args left evt rt tx)
  unfolding with_args
  with_args-Fits tx = elim (Bool-cases (head_byte tx == 0)) [
    | inl ends ↦ rw ends (out_replied_0_arg-Fits rt)
    | inr more ↦
        rw more (
          with_source-Fits tx (take_code 0 tx) λ m rest e. take_code-lt 0 tx m rest (omega arith) e)
  ]

replied_text-lem :
    (r : Pointer) (k : Replied → Outcome Parsed)
    → r ≢ wild
    → ((rt : Replied) → Fits (k rt))
    → Fits (replied_text r >>= k)
replied_text-lem nothing k ne fits = fits none
replied_text-lem wild k ne fits = absurd (ne refl)
replied_text-lem (event e) k ne fits =
    fits (elim (tge_get_text e) [ none ↦ none | some tx ↦ some (tx, e) ])

after_tr-Fits :
    (left : Bytes → ℕ) (evt : Tgev) (tx : Bytes)
    → ((s : Bytes) → left s < 8192)
    → tge_get_reply_to evt ≢ wild
    → Fits (after_tr left evt tx)
unfolding after_tr
after_tr-Fits left evt tx left-lt ne = replied_text-lem (tge_get_reply_to evt) _ ne λ rt.
    elim (Bool-cases (is_ws (head_byte tx))) [
      | inl space ↦ rw space (with_args-Fits left left-lt evt rt (skip_ws (drop 1 tx)))
      | inr other ↦ elim (Bool-cases (head_byte tx == 0)) [
        | inl ends ↦ rw (other, ends) (out_replied_0_arg-Fits rt)
        | inr more ↦ rw (other, more) Fits-cancel
      ]
    ]

-- Where the event's reply pointer is NULL or points to an event, every text is either no command for
-- this module or gives a query: `parse_command` writes inside `payload`, the query has one of the
-- two forms with every value percent-encoded, a language of at most 31 bytes and a text of fewer
-- than 8192, and a 0 behind it fits in the buffer as well.
pub parse_command-Fits :
    (text : Bytes) (evt : Tgev) → tge_get_reply_to evt ≢ wild → Fits (parse_command text evt)
unfolding parse_command
parse_command-Fits text evt ne = elim (Bool-cases (too_long (strnlen text 8192))) [
  | inl long ↦ rw long Fits-cancel
  | inr short ↦ elim (Bool-cases (named_tr (skip_sign text))) [
    | inl named ↦ rw (short, named) (after_tr-Fits _ evt (drop 2 (skip_sign text)) (bound short) ne)
    | inr other ↦ rw (short, other) Fits-cancel
  ]
]
  where
    bound :
        too_long (strnlen text 8192) ≡ false
        → (s : Bytes) → strnlen text 8192 - (length text - length s) < 8192
    bound short s = omega (arith, too_long-lt (strnlen text 8192) short)
