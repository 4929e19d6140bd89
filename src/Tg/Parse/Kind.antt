-- ===== src/Tg/Parse/Kind.antt =====
-- Which kind of event a message is, and whose.
use gnuweeb_bot.Base.{
  ℕ, zero, suc, ◌≡◌, ◌≢◌, refl, false, Option, none, some, List, Bytes, codes, arith, ◌==◌,
}
use gnuweeb_bot.Tg.Json.{JsonApi}
use gnuweeb_bot.Tg.Fill.{
  Got, got, err, broke, ecanceled, Yields, Yields-got, Yields-err, Yields-broke, Yields-bind,
}
use gnuweeb_bot.Tg.Event.{
  Head, Entity, Tgev, type_of, head_of, tge_get_user_id, tge_get_chat_id, tge_get_msg_id, text,
  photo, sticker, gif, unknown, zero_head,
}
use gnuweeb_bot.Tg.Message.{parse_head}
use gnuweeb_bot.Tg.Ids.{HeadOf}
use gnuweeb_bot.Tg.Parse.{
  parse_entities, parse_reply_to, parse_event_text, parse_event_photo, parse_event_sticker,
  parse_event_gif, parse_event_unknown, unknown_from, unknown_rest, or_else, parse_message_with,
  parse_message_json_obj,
}
use gnuweeb_bot.Tg.Parse.Made.{
  Made, parse_reply_to-Settles, text-Made, photo-Made, sticker-Made, gif-Made,
}

module _ (api : JsonApi) where
  open api use {Json, get_ex, get_uint64, get_int64}

  -- The type that `key` stands for, or what the later keys say.
  abbrev pub kind_if : Option Json → ℕ → ℕ → ℕ
  kind_if none n k = k
  kind_if (some r) n k = n

  -- The first key of the message that names a kind.
  unfoldable pub kind_of : Json → ℕ
  kind_of j = kind_if (get_ex j (codes "text")) 2 (
      kind_if (get_ex j (codes "photo")) 4
        (kind_if (get_ex j (codes "sticker")) 8 (kind_if (get_ex j (codes "animation")) 16 1)))

  -- Whoever reads the event finds the ids of the object.
  pub record IdsOf (j : Json) (e : Tgev) : Type 0 where
    pub msg_id :
        (m : Json) × (get_ex j (codes "message_id") ≡ some m) × (tge_get_msg_id e ≡ get_uint64 m)
    pub user_id :
        (f : Json) × (get_ex j (codes "from") ≡ some f)
        × ((i : Json) × (get_ex f (codes "id") ≡ some i) × (tge_get_user_id e ≡ get_uint64 i))
    pub chat_id :
        (c : Json) × (get_ex j (codes "chat") ≡ some c)
        × ((i : Json) × (get_ex c (codes "id") ≡ some i) × (tge_get_chat_id e ≡ get_int64 i))

  HeadOf-IdsOf : (j : Json) (e : Tgev) → HeadOf api j (head_of e) → IdsOf j e
  unfolding tge_get_user_id tge_get_chat_id tge_get_msg_id
  HeadOf-IdsOf j (unknown h es r) q = record {
    msg_id = q.msg_id;
    user_id = q.from;
    chat_id = q.chat;
  }
  HeadOf-IdsOf j (text h t es r) q = record {
    msg_id = q.msg_id;
    user_id = q.from;
    chat_id = q.chat;
  }
  HeadOf-IdsOf j (photo h ph c es r) q = record {
    msg_id = q.msg_id;
    user_id = q.from;
    chat_id = q.chat;
  }
  HeadOf-IdsOf j (sticker h s r) q = record {
    msg_id = q.msg_id;
    user_id = q.from;
    chat_id = q.chat;
  }
  HeadOf-IdsOf j (gif h a d c es r) q = record {
    msg_id = q.msg_id;
    user_id = q.from;
    chat_id = q.chat;
  }

  -- An event of type `k`, with the ids of the object unless its type is unknown.
  abbrev Good : ℕ → Json → Tgev → Type 0
  Good k j e = (type_of e ≡ k) × (k ≢ 1 → HeadOf api j (head_of e))

  Good-Made :
      (parse : Json → Got Tgev) (k : ℕ) (j : Json) (m : Got Tgev)
      → Yields (Made api parse k j) m
      → Yields (Good k j) m
  Good-Made parse k j (got e) q = Yields-got ((q.value e refl).0, λ ne. (q.value e refl).1)
  Good-Made parse k j (err e) q = Yields-err (q.error e refl)
  Good-Made parse k j (broke x) q = Yields-broke

  module _ (parse : Json → Got Tgev) where
    ==-ne : (e : ℕ) → e ≢ ecanceled → (e == ecanceled) ≡ false
    ==-ne e ne = ground arith

    Yields-or_else :
        {P : Tgev → Type 0} (m next : Got Tgev) → Yields P m → Yields P (or_else api parse m next)
    Yields-or_else (got e) next q = q
    Yields-or_else (err e) next q = rw (==-ne e (q.error e refl)) q
    Yields-or_else (broke x) next q = q

    rest-Good :
        (j : Json) (h : Head) (m : Got (List Entity))
        → Yields (Good 1 j) (unknown_rest api parse j h m)
    rest-Good j h (got es) =
        Yields-bind (parse_reply_to api parse j) _ (parse_reply_to-Settles api parse j)
          λ r q. Yields-got (refl, λ ne. absurd (ne refl))
    rest-Good j h (err e) = Yields-got (refl, λ ne. absurd (ne refl))
    rest-Good j h (broke x) = Yields-broke

    from-Good :
        (j : Json) (m : Head × Got (Unit {0})) → Yields (Good 1 j) (unknown_from api parse j m)
    from-Good j (h, got u) = rest-Good j h (parse_entities api j (codes "entities"))
    from-Good j (h, err e) = Yields-got (refl, λ ne. absurd (ne refl))
    from-Good j (h, broke x) = Yields-broke

    unknown-Good : (j : Json) → Yields (Good 1 j) (parse_event_unknown api parse j)
    unfolding parse_event_unknown
    unknown-Good j = from-Good j (parse_head api j zero_head)

    -- One parser of the chain: it declines where its key is missing.
    link :
        (j : Json) (n k : ℕ) (key : Bytes) (m next : Got Tgev)
        → (get_ex j key ≡ none → m ≡ err ecanceled)
        → ((r : Json) → get_ex j key ≡ some r → Yields (Made api parse n j) m)
        → Yields (Good k j) next
        → Yields (Good (kind_if (get_ex j key) n k) j) (or_else api parse m next)
    link j n k key m next declines makes later = at (get_ex j key) refl
      where
        at :
            (o : Option Json)
            → get_ex j key ≡ o
            → Yields (Good (kind_if o n k) j) (or_else api parse m next)
        at none e = rw (declines e) later
        at (some r) e = Yields-or_else m next (Good-Made parse n j m (makes r e))

    text-declines :
        (j : Json) → get_ex j (codes "text") ≡ none → parse_event_text api parse j ≡ err ecanceled
    unfolding parse_event_text
    text-declines j e = rw (parse_event_text, e) refl

    photo-declines :
        (j : Json) → get_ex j (codes "photo") ≡ none → parse_event_photo api parse j ≡ err ecanceled
    unfolding parse_event_photo
    photo-declines j e = rw (parse_event_photo, e) refl

    sticker-declines :
        (j : Json)
        → get_ex j (codes "sticker") ≡ none
        → parse_event_sticker api parse j ≡ err ecanceled
    unfolding parse_event_sticker
    sticker-declines j e = rw (parse_event_sticker, e) refl

    gif-declines :
        (j : Json)
        → get_ex j (codes "animation") ≡ none
        → parse_event_gif api parse j ≡ err ecanceled
    unfolding parse_event_gif
    gif-declines j e = rw (parse_event_gif, e) refl

    parse_message_with-Good :
        (j : Json) → Yields (Good (kind_of j) j) (parse_message_with api parse j)
    unfolding parse_message_with kind_of
    parse_message_with-Good j =
        link j 2 _ (codes "text") (parse_event_text api parse j) _ (text-declines j)
          (text-Made api parse j)
          (link j 4 _ (codes "photo") (parse_event_photo api parse j) _ (photo-declines j)
            (photo-Made api parse j)
            (link j 8 _ (codes "sticker") (parse_event_sticker api parse j) _ (sticker-declines j)
              (sticker-Made api parse j)
              (link j 16 _ (codes "animation") (parse_event_gif api parse j) _ (gif-declines j)
                (gif-Made api parse j) (unknown-Good j))))

  parse_message_json_obj-Good :
      (n : ℕ) (j : Json) → Yields (Good (kind_of j) j) (parse_message_json_obj api n j)
  unfolding parse_message_json_obj
  parse_message_json_obj-Good zero j = Yields-broke
  parse_message_json_obj-Good (suc n) j = parse_message_with-Good (parse_message_json_obj api n) j

  -- If a message is parsed, its type is the one that the first of the keys text, photo, sticker and
  -- animation that it has stands for (2, 4, 8 and 16), and 1 if it has none of them.
  pub parse_message_json_obj-kind_of :
      (n : ℕ) (j : Json) (e : Tgev) → parse_message_json_obj api n j ≡ got e → type_of e ≡ kind_of j
  parse_message_json_obj-kind_of n j e q = (Yields.value (parse_message_json_obj-Good n j) e q).0

  -- If a message that has one of the keys text, photo, sticker and animation is parsed,
  -- `tge_get_msg_id`, `tge_get_user_id` and `tge_get_chat_id` of the event are the numbers at
  -- message_id, at id of from and at id of chat.
  pub parse_message_json_obj-IdsOf :
      (n : ℕ) (j : Json) (e : Tgev)
      → parse_message_json_obj api n j ≡ got e
      → kind_of j ≢ 1
      → IdsOf j e
  parse_message_json_obj-IdsOf n j e q ne =
      HeadOf-IdsOf j e ((Yields.value (parse_message_json_obj-Good n j) e q).1 ne)
