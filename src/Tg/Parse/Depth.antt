-- ===== src/Tg/Parse/Depth.antt =====
-- A message is parsed with fuel as large as its replies are deep.
use gnuweeb_bot.Base.{
  not, ℕ, zero, suc, ◌≡◌, ◌≢◌, ◌<◌, refl, Bool, true, false, Option, none, some, List, Bytes, codes,
  arith, ◌==◌, if◌then◌else◌, out_of_fuel, ap, Fault,
}
use gnuweeb_bot.Tg.Json.{JsonApi}
use gnuweeb_bot.Tg.Fill.{Got, got, err, broke, bind, ecanceled, Ends}
use gnuweeb_bot.Tg.Event.{Head, Entity, Tgev, zero_head, zero_media, zero_sticker}
use gnuweeb_bot.Tg.Info.{
  u16, parse_tgevi_media, parse_tgevi_sticker, parse_tgevi_entities, parse_tgevi_photos,
}
use gnuweeb_bot.Tg.Message.{parse_head}
use gnuweeb_bot.Tg.Ids.{parse_head-HeadOf}
use gnuweeb_bot.Tg.Parse.{
  parse_photos, filled, as_einval, parse_entities, parse_caption, replied, parse_replied_msg,
  parse_reply_to, parse_event_text, parse_event_photo, parse_event_sticker, parse_event_gif,
  parse_event_unknown, unknown_from, unknown_rest, or_else, parse_message_with,
  parse_message_json_obj,
}
use gnuweeb_bot.Tg.Parse.Part.{parse_tgevi_sticker-Done, parse_tgevi_media-Done}

-- The call does not run out of fuel.
abbrev Lasts : {A : Type 0} → Got A → Type 0
Lasts m = m ≢ broke out_of_fuel

abbrev fault : {A : Type 0} → Fault → Got A → Fault
fault x (got a) = x
fault x (err e) = x
fault x (broke y) = y

fault_of : {A : Type 0} {x y : Fault} → ◌≡◌ {A = Got A} (broke x) (broke y) → x ≡ y
fault_of {A} {x} e = ap (fault x) e

Lasts-bind :
    {A B : Type 0} (m : Got A) (k : A → Got B)
    → Lasts m
    → ((a : A) → Lasts (k a))
    → Lasts (bind m k)
Lasts-bind (got a) k q h = h a
Lasts-bind (err e) k q h = ground arith
Lasts-bind (broke x) k q h = λ e. q (ap broke (fault_of e))

filled-Lasts : {S : Type 0} {P : S → Type 0} (m : S × Got (Unit {0})) → Ends P m → Lasts (filled m)
filled-Lasts (s, got a) q = ground arith
filled-Lasts (s, err e) q = ground arith
filled-Lasts (s, broke x) q = λ e. q.faults s x refl (fault_of e)

as_einval-Lasts : {A : Type 0} (m : Got A) → Lasts m → Lasts (as_einval m)
as_einval-Lasts (got a) q = q
as_einval-Lasts (err e) q = ground arith
as_einval-Lasts (broke x) q = q

module _ (api : JsonApi) where
  open api use {Json, is_null, get_ex, get_string, is_array, array_length, malloc_ok, calloc_ok}

  absent :
      {A : Type 0} (o : Option Json) (x : Got A) (f : Json → Got A)
      → Lasts x
      → ((r : Json) → o ≡ some r → Lasts (f r))
      → Lasts (elim o as (λ _. Got A) [ none ↦ x | some r ↦ f r ])
  absent none x f n y = n
  absent (some r) x f n y = y r refl

  either : {A : Type 0} (b : Bool) (x y : Got A) → Lasts x → Lasts y → Lasts (if b then x else y)
  either true x y hx hy = hx
  either false x y hx hy = hy

  parse_entities-Lasts : (j : Json) (key : Bytes) → Lasts (parse_entities api j key)
  unfolding parse_entities parse_tgevi_entities
  parse_entities-Lasts j key = absent (get_ex j key) _ _ (ground arith) λ es at.
      either (not (is_array es)) _ _ (ground arith) (
        either (u16 (array_length es) == 0) _ _ (ground arith)
          (either (calloc_ok es) _ _ (ground arith) (ground arith)))

  parse_caption-Lasts : (j : Json) → Lasts (parse_caption api j)
  unfolding parse_caption
  parse_caption-Lasts j = absent (get_ex j (codes "caption")) _ _ (ground arith) λ c at.
      Lasts-bind (parse_entities api j (codes "caption_entities")) _
        (parse_entities-Lasts j (codes "caption_entities")) λ es. ground arith

  head-Lasts : (j : Json) → Lasts (filled (parse_head api j zero_head))
  head-Lasts j = filled-Lasts (parse_head api j zero_head) (parse_head-HeadOf api j zero_head)

  photos-Lasts : (j : Json) (n : ℕ) → Lasts (parse_tgevi_photos api j n)
  unfolding parse_tgevi_photos
  photos-Lasts j n = either (calloc_ok j) _ _ (ground arith) (ground arith)

  -- The parser of messages can parse the message that `j` replies to.
  module _ (parse : Json → Got Tgev) (j : Json)
      (reply : (r : Json) → get_ex j (codes "reply_to_message") ≡ some r → Lasts (parse r)) where
    replied-Lasts : (m : Got Tgev) → Lasts m → Lasts (replied api parse m)
    replied-Lasts (got e) q = ground arith
    replied-Lasts (err e) q = ground arith
    replied-Lasts (broke x) q = λ e. q (ap broke (fault_of e))

    parse_reply_to-Lasts : Lasts (parse_reply_to api parse j)
    unfolding parse_reply_to parse_replied_msg
    parse_reply_to-Lasts = absent (get_ex j (codes "reply_to_message")) _ _ (ground arith) λ r at.
        either (is_null r) _ _ (ground arith)
          (either (malloc_ok r) _ _ (replied-Lasts (parse r) (reply r at)) (ground arith))

    parse_photos-Lasts : (ps : Json) → Lasts (parse_photos api parse ps)
    unfolding parse_photos
    parse_photos-Lasts ps =
        either (not (is_array ps)) _ _ (ground arith) (photos-Lasts ps (u16 (array_length ps)))

    text-Lasts : Lasts (parse_event_text api parse j)
    unfolding parse_event_text
    text-Lasts = absent (get_ex j (codes "text")) _ _ (ground arith) λ t at.
        Lasts-bind (filled (parse_head api j zero_head)) _ (head-Lasts j) λ h.
          Lasts-bind (as_einval (parse_entities api j (codes "entities"))) _
            (as_einval-Lasts (parse_entities api j (codes "entities"))
              (parse_entities-Lasts j (codes "entities")))
            λ es. Lasts-bind (parse_reply_to api parse j) _ parse_reply_to-Lasts λ r. ground arith

    photo-Lasts : Lasts (parse_event_photo api parse j)
    unfolding parse_event_photo
    photo-Lasts = absent (get_ex j (codes "photo")) _ _ (ground arith) λ ps at.
        Lasts-bind (as_einval (parse_photos api parse ps)) _
          (as_einval-Lasts (parse_photos api parse ps) (parse_photos-Lasts ps))
          λ photos. Lasts-bind (filled (parse_head api j zero_head)) _ (head-Lasts j) λ h.
            Lasts-bind (as_einval (parse_caption api j)) _
              (as_einval-Lasts (parse_caption api j) (parse_caption-Lasts j)) λ c. ground arith

    sticker-Lasts : Lasts (parse_event_sticker api parse j)
    unfolding parse_event_sticker
    sticker-Lasts = absent (get_ex j (codes "sticker")) _ _ (ground arith) λ k at.
        Lasts-bind (filled (parse_tgevi_sticker api k zero_sticker)) _
          (filled-Lasts (parse_tgevi_sticker api k zero_sticker)
            (parse_tgevi_sticker-Done api k zero_sticker))
          λ stk.
            Lasts-bind (filled (parse_head api j zero_head)) _ (head-Lasts j)
              λ h. Lasts-bind (parse_reply_to api parse j) _ parse_reply_to-Lasts λ r. ground arith

    gif-Lasts : Lasts (parse_event_gif api parse j)
    unfolding parse_event_gif
    gif-Lasts = absent (get_ex j (codes "animation")) _ _ (ground arith) λ a at.
        Lasts-bind (filled (parse_tgevi_media api a zero_media)) _
          (filled-Lasts (parse_tgevi_media api a zero_media)
            (parse_tgevi_media-Done api a zero_media))
          λ media. absent (get_ex j (codes "document")) _ _ (ground arith) λ d at'.
            Lasts-bind (filled (parse_head api j zero_head)) _ (head-Lasts j)
              λ h. Lasts-bind (parse_caption api j) _ (parse_caption-Lasts j) λ c. ground arith

    rest-Lasts : (h : Head) (m : Got (List Entity)) → Lasts m → Lasts (unknown_rest api parse j h m)
    rest-Lasts h (got es) q =
        Lasts-bind (parse_reply_to api parse j) _ parse_reply_to-Lasts λ r. ground arith
    rest-Lasts h (err e) q = ground arith
    rest-Lasts h (broke x) q = λ e. q (ap broke (fault_of e))

    from-Lasts : (m : Head × Got (Unit {0})) → Lasts (filled m) → Lasts (unknown_from api parse j m)
    from-Lasts (h, got u) q =
        rest-Lasts h (parse_entities api j (codes "entities"))
          (parse_entities-Lasts j (codes "entities"))
    from-Lasts (h, err e) q = ground arith
    from-Lasts (h, broke x) q = λ e. q (ap broke (fault_of e))

    unknown-Lasts : Lasts (parse_event_unknown api parse j)
    unfolding parse_event_unknown
    unknown-Lasts = from-Lasts (parse_head api j zero_head) (head-Lasts j)

    or_else-Lasts : (m next : Got Tgev) → Lasts m → Lasts next → Lasts (or_else api parse m next)
    or_else-Lasts (got e) next q h = q
    or_else-Lasts (err e) next q h = either (e == ecanceled) next (err e) h q
    or_else-Lasts (broke x) next q h = q

    parse_message_with-Lasts : Lasts (parse_message_with api parse j)
    unfolding parse_message_with
    parse_message_with-Lasts = or_else-Lasts (parse_event_text api parse j) _ text-Lasts (
        or_else-Lasts (parse_event_photo api parse j) _ photo-Lasts (
          or_else-Lasts (parse_event_sticker api parse j) _ sticker-Lasts
            (or_else-Lasts (parse_event_gif api parse j) _ gif-Lasts unknown-Lasts)))

  -- `depth` bounds how deep the messages replied to are nested. With more fuel than that, the parser
  -- does not run out of it.
  pub parse_message_json_obj-terminates :
      (depth : Json → ℕ)
      (deeper : (j r : Json) → get_ex j (codes "reply_to_message") ≡ some r → depth r < depth j)
      (n : ℕ) (j : Json)
      → depth j < n
      → parse_message_json_obj api n j ≢ broke out_of_fuel
  unfolding parse_message_json_obj
  parse_message_json_obj-terminates depth deeper zero j h = absurd (omega arith)
  parse_message_json_obj-terminates depth deeper (suc n) j h =
      parse_message_with-Lasts (parse_message_json_obj api n) j λ r at.
        let shallower : depth r < depth j = deeper j r at in
        parse_message_json_obj-terminates depth deeper n r (omega arith)
