-- ===== src/Tg/Ids.antt =====
-- The ids of an event are those of its JSON text.
use gnuweeb_bot.Base.{
  ◌≡◌, refl, ap, ◌∙◌, Bool, true, false, Option, none, some, Bytes, codes, arith,
}
use gnuweeb_bot.Tg.Json.{JsonApi}
use gnuweeb_bot.Tg.Fill.{
  Fill, then_fill, Ends, Ends-got, Ends-err, Ends-after, Ends-call, Ends-inside, give, fail,
}
use gnuweeb_bot.Tg.Event.{From, Chat, ChatType, Head, private_chat, group, supergroup, unset}
use gnuweeb_bot.Tg.Info.{
  einval, require, parse_tgevi_from, parse_tgevi_chat, chat_names, type_text, as_type, chat_type,
  first_byte,
}
use gnuweeb_bot.Tg.Message.{
  parse_forward, parse_forward_date, parse_sender_chat, parse_head, set_from, set_forward_from,
  set_chat, set_sender_chat,
}

module _ (api : JsonApi) where
  open api use {Json, get_ex, get_string, get_uint64, get_int64}

  -- A key that is required and found.
  pub need :
      {S B : Type 0} {P : S → Type 0} (j : Json) (key : Bytes) (s : S) (k : Json → Fill S B)
      → ((r : Json) → get_ex j key ≡ some r → Ends P (k r s))
      → Ends P (then_fill (require api j key s) k)
  need {S} {B} {P} j key s k h = at (get_ex j key) refl
    where
      at :
          (found : Option Json)
          → get_ex j key ≡ found
          → Ends P (
              then_fill
                ((let m : Fill S Json = elim found [ none ↦ fail einval | some res ↦ give res ] in
                    m)
                  s)
                k)
      at none e = Ends-err (omega arith)
      at (some r) e = h r e

  -- The id of a user or a chat.
  abbrev pub FromId : Json → From → Type 0
  FromId j f = (i : Json) × (get_ex j (codes "id") ≡ some i) × (f.id ≡ get_uint64 i)

  abbrev pub ChatId : Json → Chat → Type 0
  ChatId j c = (i : Json) × (get_ex j (codes "id") ≡ some i) × (c.id ≡ get_int64 i)

  parse_tgevi_from-FromId : (j : Json) (f : From) → Ends (FromId j) (parse_tgevi_from api j f)
  unfolding parse_tgevi_from
  parse_tgevi_from-FromId j f =
      need j (codes "id") f _
        λ i at. need j (codes "first_name") _ _ λ n at'. Ends-got (i, at, refl)

  -- A key that may be missing.
  pub maybe :
      {S B : Type 0} {P : S → Type 0} (o : Option Json) (s : S) (x : Fill S B) (f : Json → Fill S B)
      → Ends P (x s)
      → ((r : Json) → Ends P (f r s))
      → Ends P ((elim o as (λ _. Fill S B) [ none ↦ x | some r ↦ f r ]) s)
  maybe none s x f n y = n
  maybe (some r) s x f n y = y r

  as_type-keeps : (t : Option ChatType) (c : Chat) → Ends (λ c'. c'.id ≡ c.id) (as_type api t c)
  as_type-keeps none c = Ends-err (omega arith)
  as_type-keeps (some t) c = Ends-got refl

  type_text-keeps : (t : Option Bytes) (c : Chat) → Ends (λ c'. c'.id ≡ c.id) (type_text api t c)
  type_text-keeps none c = Ends-err (omega arith)
  type_text-keeps (some s) c = as_type-keeps (chat_type api (first_byte api s)) c

  chat_names-keeps :
      (j : Json) (t : ChatType) (c : Chat) → Ends (λ c'. c'.id ≡ c.id) (chat_names api j t c)
  unfolding chat_names
  chat_names-keeps j private_chat c = need j (codes "first_name") _ _ λ n at. Ends-got refl
  chat_names-keeps j group c =
      need j (codes "all_members_are_administrators") _ _
        λ a at. need j (codes "title") _ _ λ n at'. Ends-got refl
  chat_names-keeps j supergroup c = need j (codes "title") _ _ λ n at. Ends-got refl
  chat_names-keeps j unset c = need j (codes "title") _ _ λ n at. Ends-got refl

  parse_tgevi_chat-ChatId : (j : Json) (c : Chat) → Ends (ChatId j) (parse_tgevi_chat api j c)
  unfolding parse_tgevi_chat
  parse_tgevi_chat-ChatId j c = need j (codes "id") c _ λ i at. need j (codes "type") _ _ λ t at'.
      Ends-after (type_text api (get_string t) _) _ (type_text-keeps (get_string t) _) λ s u same.
        Ends-after (chat_names api j u _) _ (chat_names-keeps j u _)
          λ s' u' same'. Ends-got (i, at, same' ∙ same)

  -- What a step leaves as it is.
  abbrev Same : Head → Head → Type 0
  Same h h' = (h'.msg_id ≡ h.msg_id) × (h'.from ≡ h.from) × (h'.chat ≡ h.chat)

  parse_forward-Same : (j : Json) (h : Head) → Ends (Same h) (parse_forward api j h)
  unfolding parse_forward
  parse_forward-Same j h =
      maybe (get_ex j (codes "forward_from")) h _ _
        (maybe (get_ex j (codes "forward_sender_name")) h _ _ (Ends-got (refl, refl, refl))
          (λ n. Ends-got (refl, refl, refl)))
        (λ r.
          Ends-call (λ (x : Head). x.forward_from) set_forward_from (parse_tgevi_from api r) h _
            (parse_tgevi_from-FromId r h.forward_from) (λ f q. Ends-got (refl, refl, refl)))

  parse_forward_date-Same :
      (j : Json) (b : Bool) (h : Head) → Ends (Same h) (parse_forward_date api j b h)
  unfolding parse_forward_date
  parse_forward_date-Same j false h = Ends-got (refl, refl, refl)
  parse_forward_date-Same j true h =
      need j (codes "forward_date") _ _ λ d at. Ends-got (refl, refl, refl)

  parse_sender_chat-Same : (j : Json) (h : Head) → Ends (Same h) (parse_sender_chat api j h)
  unfolding parse_sender_chat
  parse_sender_chat-Same j h =
      maybe (get_ex j (codes "sender_chat")) h _ _ (Ends-got (refl, refl, refl)) (λ r.
        Ends-inside (λ (x : Head). x.sender_chat) set_sender_chat (parse_tgevi_chat api r) h
          (parse_tgevi_chat-ChatId r h.sender_chat) (λ c q. (refl, refl, refl)))

  -- The ids of a message are those of its JSON object.
  pub record HeadOf (j : Json) (h : Head) : Type 0 where
    pub msg_id : (m : Json) × (get_ex j (codes "message_id") ≡ some m) × (h.msg_id ≡ get_uint64 m)
    pub from : (f : Json) × (get_ex j (codes "from") ≡ some f) × FromId f h.from
    pub chat : (c : Json) × (get_ex j (codes "chat") ≡ some c) × ChatId c h.chat

  pub parse_head-HeadOf : (j : Json) (h : Head) → Ends (HeadOf j) (parse_head api j h)
  unfolding parse_head
  parse_head-HeadOf j h = need j (codes "message_id") h _ λ m at-m.
      need j (codes "from") _ _ λ f at-f.
        Ends-call (λ (x : Head). x.from) set_from (parse_tgevi_from api f) _ _
          (parse_tgevi_from-FromId f _)
          λ from id-f. Ends-after (parse_forward api j _) _ (parse_forward-Same j _) λ s u same.
            Ends-after (parse_forward_date api j s.is_forwarded s) _
              (parse_forward_date-Same j s.is_forwarded s)
              λ s' u' same'. need j (codes "chat") s' _ λ c at-c.
                Ends-call (λ (x : Head). x.chat) set_chat (parse_tgevi_chat api c) s' _
                  (parse_tgevi_chat-ChatId c s'.chat)
                  λ chat id-c.
                    Ends-after (parse_sender_chat api j (set_chat chat s')) _
                      (parse_sender_chat-Same j (set_chat chat s'))
                      λ s'' u'' same''. need j (codes "date") s'' _ λ d at-d.
                        Ends-got {s = record s'' { date = get_int64 d }} (record {
                          msg_id = (m, at-m, same''.0 ∙ same'.0 ∙ same.0);
                          from = (
                            f,
                            at-f,
                            (
                              id-f.0,
                              id-f.1,
                              ap (λ (x : From). x.id) (same''.1 ∙ same'.1 ∙ same.1) ∙ id-f.2,
                            ),
                          );
                          chat = (
                            c,
                            at-c,
                            (id-c.0, id-c.1, ap (λ (x : Chat). x.id) same''.2 ∙ id-c.2),
                          );
                        })
