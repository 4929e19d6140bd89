-- ===== src/Tg/Parse/Made.antt =====
-- Each parse_event_* of a message with its key makes an event of its type, with the ids of the object.
use gnuweeb_bot.Base.{
  not, ℕ, ◌≡◌, refl, Bool, true, false, Option, none, some, Bytes, codes, arith, ◌==◌,
  if◌then◌else◌,
}
use gnuweeb_bot.Tg.Json.{JsonApi}
use gnuweeb_bot.Tg.Fill.{
  Got, got, err, broke, Ends, Yields, Yields-got, Yields-err, Yields-broke, Yields-bind,
}
use gnuweeb_bot.Tg.Event.{zero_head, Tgev, type_of, head_of, zero_media, zero_sticker}
use gnuweeb_bot.Tg.Info.{parse_tgevi_media, parse_tgevi_sticker, parse_tgevi_entities, u16}
use gnuweeb_bot.Tg.Message.{parse_head}
use gnuweeb_bot.Tg.Ids.{HeadOf, parse_head-HeadOf}
use gnuweeb_bot.Tg.Parse.Part.{parse_tgevi_sticker-Done, parse_tgevi_media-Done}
use gnuweeb_bot.Tg.Parse.{
  parse_photos, filled, as_einval, parse_entities, parse_caption, replied, parse_replied_msg,
  parse_reply_to, parse_event_text, parse_event_photo, parse_event_sticker, parse_event_gif,
}

-- Nothing is said of the value, but no error is -ECANCELED.
abbrev Settles : {A : Type 0} → Got A → Type 0
Settles m = Yields (λ _. Unit {0}) m

filled-Yields :
    {S : Type 0} {P : S → Type 0} (m : S × Got (Unit {0})) → Ends P m → Yields P (filled m)
filled-Yields (s, got a) q = Yields-got (q.holds s a refl)
filled-Yields (s, err e) q = Yields-err (q.fails s e refl)
filled-Yields (s, broke x) q = Yields-broke

as_einval-Settles : {A : Type 0} (m : Got A) → Settles (as_einval m)
as_einval-Settles (got a) = Yields-got tt
as_einval-Settles (err e) = Yields-err (omega arith)
as_einval-Settles (broke x) = Yields-broke

module _ (api : JsonApi) where
  open api use {
    Json, is_null, get_ex, get_string, get_uint64, get_int64, is_array, array_length, malloc_ok,
    calloc_ok,
  }

  -- A key that may be missing.
  possibly :
      {A : Type 0} {P : A → Type 0} (o : Option Json) (x : Got A) (f : Json → Got A)
      → Yields P x
      → ((r : Json) → Yields P (f r))
      → Yields P (elim o as (λ _. Got A) [ none ↦ x | some r ↦ f r ])
  possibly none x f n y = n
  possibly (some r) x f n y = y r

  either :
      {A : Type 0} {P : A → Type 0} (b : Bool) (x y : Got A)
      → Yields P x
      → Yields P y
      → Yields P (if b then x else y)
  either true x y hx hy = hx
  either false x y hx hy = hy

  parse_entities-Settles : (j : Json) (key : Bytes) → Settles (parse_entities api j key)
  unfolding parse_entities parse_tgevi_entities
  parse_entities-Settles j key = possibly (get_ex j key) _ _ (Yields-got tt) λ es.
      either (not (is_array es)) _ _ Yields-broke (
        either (u16 (array_length es) == 0) _ _ (Yields-got tt)
          (either (calloc_ok es) _ _ (Yields-got tt) (Yields-err (omega arith))))

  parse_caption-Settles : (j : Json) → Settles (parse_caption api j)
  unfolding parse_caption
  parse_caption-Settles j = possibly (get_ex j (codes "caption")) _ _ (Yields-got tt) λ c.
      Yields-bind (parse_entities api j (codes "caption_entities")) _
        (parse_entities-Settles j (codes "caption_entities")) λ es q. Yields-got tt

  module _ (parse : Json → Got Tgev) where
    replied-Settles : (m : Got Tgev) → Settles (replied api parse m)
    replied-Settles (got e) = Yields-got tt
    replied-Settles (err e) = Yields-got tt
    replied-Settles (broke x) = Yields-broke

    pub parse_reply_to-Settles : (j : Json) → Settles (parse_reply_to api parse j)
    unfolding parse_reply_to parse_replied_msg
    parse_reply_to-Settles j =
        possibly (get_ex j (codes "reply_to_message")) _ _ (Yields-got tt) λ r.
          either (is_null r) _ _ (Yields-got tt)
            (either (malloc_ok r) _ _ (replied-Settles (parse r)) Yields-broke)

    -- The type, and the ids of the object.
    abbrev pub Made : ℕ → Json → Tgev → Type 0
    Made n j e = (type_of e ≡ n) × HeadOf api j (head_of e)

    head-Yields : (j : Json) → Yields (HeadOf api j) (filled (parse_head api j zero_head))
    head-Yields j = filled-Yields (parse_head api j zero_head) (parse_head-HeadOf api j zero_head)

    pub text-Made :
        (j t : Json)
        → get_ex j (codes "text") ≡ some t
        → Yields (Made 2 j) (parse_event_text api parse j)
    unfolding parse_event_text
    text-Made j t at =
        rw (parse_event_text, at)
          (Yields-bind (filled (parse_head api j zero_head)) _ (head-Yields j) λ h hd.
            Yields-bind (as_einval (parse_entities api j (codes "entities"))) _
              (as_einval-Settles (parse_entities api j (codes "entities")))
              λ es q.
                Yields-bind (parse_reply_to api parse j) _ (parse_reply_to-Settles j)
                  λ r q'. Yields-got (refl, hd))

    pub photo-Made :
        (j ps : Json)
        → get_ex j (codes "photo") ≡ some ps
        → Yields (Made 4 j) (parse_event_photo api parse j)
    unfolding parse_event_photo
    photo-Made j ps at =
        rw (parse_event_photo, at)
          (Yields-bind (as_einval (parse_photos api parse ps)) _
            (as_einval-Settles (parse_photos api parse ps))
            λ photos q. Yields-bind (filled (parse_head api j zero_head)) _ (head-Yields j) λ h hd.
              Yields-bind (as_einval (parse_caption api j)) _
                (as_einval-Settles (parse_caption api j)) λ c q'. Yields-got (refl, hd))

    pub sticker-Made :
        (j k : Json)
        → get_ex j (codes "sticker") ≡ some k
        → Yields (Made 8 j) (parse_event_sticker api parse j)
    unfolding parse_event_sticker
    sticker-Made j k at =
        rw (parse_event_sticker, at)
          (Yields-bind (filled (parse_tgevi_sticker api k zero_sticker)) _
            (filled-Yields (parse_tgevi_sticker api k zero_sticker)
              (parse_tgevi_sticker-Done api k zero_sticker))
            λ stk q. Yields-bind (filled (parse_head api j zero_head)) _ (head-Yields j) λ h hd.
              Yields-bind (parse_reply_to api parse j) _ (parse_reply_to-Settles j)
                λ r q'. Yields-got (refl, hd))

    pub gif-Made :
        (j a : Json)
        → get_ex j (codes "animation") ≡ some a
        → Yields (Made 16 j) (parse_event_gif api parse j)
    unfolding parse_event_gif
    gif-Made j a at =
        rw (parse_event_gif, at)
          (Yields-bind (filled (parse_tgevi_media api a zero_media)) _
            (filled-Yields (parse_tgevi_media api a zero_media)
              (parse_tgevi_media-Done api a zero_media))
            λ media q. possibly (get_ex j (codes "document")) _ _ (Yields-err (omega arith)) λ d.
              Yields-bind (filled (parse_head api j zero_head)) _ (head-Yields j) λ h hd.
                Yields-bind (parse_caption api j) _ (parse_caption-Settles j)
                  λ c q'. Yields-got (refl, hd))
