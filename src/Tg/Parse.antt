-- ===== src/Tg/Parse.antt =====
-- From a JSON message to an event: parse_event_* (include/gwbot/lib/tg_event/*.h), parse_replied_msg
-- and lib/tg_event.c.
pub mod Part
pub mod Made
pub mod Kind
pub mod Depth
use gnuweeb_bot.Base.{
  not, aborted, ℕ, zero, suc, ◌+◌, ◌≡◌, Bool, true, false, Option, none, some, List, [], ◌∷◌, Bytes,
  codes, ltb, ◌==◌, if◌then◌else◌, out_of_bounds, out_of_fuel,
}
use gnuweeb_bot.Base.Int.{ℤ, pos, negsuc}
use gnuweeb_bot.Tg.Json.{JsonApi}
use gnuweeb_bot.Tg.Fill.{Got, got, err, broke, bind, Fill, ecanceled}
use gnuweeb_bot.Tg.Event.{
  FileInfo, Media, Head, Entity, Sticker, Tgev, Reply, null, node, unknown, text, photo, sticker,
  gif, zero_head, zero_file, zero_media, zero_sticker, type_of,
}
use gnuweeb_bot.Tg.Info.{
  einval, u16, parse_tgevi_file, parse_tgevi_media, parse_tgevi_entities, parse_tgevi_sticker,
  parse_tgevi_photos,
}
use gnuweeb_bot.Tg.Message.{parse_head}

-- The struct that a call has filled in, if it returns 0.
abbrev pub filled : {S : Type 0} → S × Got (Unit {0}) → Got S
filled (s, got u) = got s
filled (s, err e) = err e
filled (s, broke x) = broke x

-- Any error of a call is -EINVAL of its caller's.
abbrev pub as_einval : {A : Type 0} → Got A → Got A
as_einval (got a) = got a
as_einval (err e) = err einval
as_einval (broke x) = broke x

module _ (api : JsonApi) where
  open api use {Json, is_null, get_ex, get_string, get_uint64, is_array, array_length, malloc_ok}

  -- The array of entities under a key that need not be there.
  unfoldable pub parse_entities : Json → Bytes → Got (List Entity)
  unfolding parse_tgevi_entities
  parse_entities j key = elim (get_ex j key) [
    | none ↦ got []
    | some es ↦
        let n = u16 (array_length es) in
        if not (is_array es)
        then broke aborted
        else if n == 0
        then got []
        else parse_tgevi_entities api es n
  ]

  -- The text of `caption`, and the entities that count only with it.
  unfoldable pub parse_caption : Json → Got (Option Bytes × List Entity)
  unfolding parse_entities
  parse_caption j = elim (get_ex j (codes "caption")) [
    | none ↦ got (none, [])
    | some c ↦ bind (parse_entities j (codes "caption_entities")) λ es. got (get_string c, es)
  ]

  -- `parse` is the parser of messages that is called for a message replied to.
  module _ (parse : Json → Got Tgev) where
    -- An error of the parser is NULL.
    abbrev pub replied : Got Tgev → Got Reply
    replied (got e) = got (node e)
    replied (err e) = got null
    replied (broke x) = broke x

    -- The result of `malloc` is written to unchecked.
    unfoldable pub parse_replied_msg : Json → Got Reply
    parse_replied_msg j = if malloc_ok j then replied (parse j) else broke out_of_bounds

    unfoldable pub parse_reply_to : Json → Got Reply
    unfolding parse_replied_msg
    parse_reply_to j = elim (get_ex j (codes "reply_to_message")) [
      | none ↦ got null
      | some r ↦ if is_null r then got null else parse_replied_msg r
    ]

    unfoldable pub parse_event_text : Json → Got Tgev
    unfolding parse_head parse_entities parse_reply_to
    parse_event_text j = elim (get_ex j (codes "text")) [
      | none ↦ err ecanceled
      | some t ↦ bind (filled (parse_head api j zero_head)) λ h.
          bind (as_einval (parse_entities j (codes "entities")))
            λ es. bind (parse_reply_to j) λ r. got (text h (get_string t) es r)
    ]

    -- The array under the key `photo`.
    unfoldable pub parse_photos : Json → Got (List FileInfo)
    unfolding parse_tgevi_photos
    parse_photos ps =
        if not (is_array ps)
        then broke aborted
        else parse_tgevi_photos api ps (u16 (array_length ps))

    unfoldable pub parse_event_photo : Json → Got Tgev
    unfolding parse_photos parse_head parse_caption
    parse_event_photo j = elim (get_ex j (codes "photo")) [
      | none ↦ err ecanceled
      | some ps ↦ bind (as_einval (parse_photos ps)) λ photos.
          bind (filled (parse_head api j zero_head))
            λ h. bind (as_einval (parse_caption j)) λ c. got (photo h photos c.0 c.1 null)
    ]

    unfoldable pub parse_event_sticker : Json → Got Tgev
    unfolding parse_tgevi_sticker parse_head parse_reply_to
    parse_event_sticker j = elim (get_ex j (codes "sticker")) [
      | none ↦ err ecanceled
      | some s ↦ bind (filled (parse_tgevi_sticker api s zero_sticker)) λ stk.
          bind (filled (parse_head api j zero_head))
            λ h. bind (parse_reply_to j) λ r. got (sticker h stk r)
    ]

    -- What the parser of `document` returns is not looked at.
    unfoldable pub parse_event_gif : Json → Got Tgev
    unfolding parse_tgevi_media parse_tgevi_file parse_head parse_caption
    parse_event_gif j = elim (get_ex j (codes "animation")) [
      | none ↦ err ecanceled
      | some a ↦ bind (filled (parse_tgevi_media api a zero_media)) λ media.
          elim (get_ex j (codes "document")) [
            | none ↦ err einval
            | some d ↦ bind (filled (parse_head api j zero_head)) λ h.
                bind (parse_caption j)
                  λ c. got (gif h media (parse_tgevi_file api d zero_file).0 c.0 c.1 null)
          ]
    ]

    -- What follows the fields of the head; an error leaves the rest as it is.
    abbrev pub unknown_rest : Json → Head → Got (List Entity) → Got Tgev
    unknown_rest j h (got es) = bind (parse_reply_to j) λ r. got (unknown h es r)
    unknown_rest j h (err e) = got (unknown h [] null)
    unknown_rest j h (broke x) = broke x

    abbrev pub unknown_from : Json → Head × Got (Unit {0}) → Got Tgev
    unknown_from j (h, got u) = unknown_rest j h (parse_entities j (codes "entities"))
    unknown_from j (h, err e) = got (unknown h [] null)
    unknown_from j (h, broke x) = broke x

    -- The event, which the caller keeps whatever this function returns.
    unfoldable pub parse_event_unknown : Json → Got Tgev
    unfolding parse_head parse_entities parse_reply_to
    parse_event_unknown j = unknown_from j (parse_head api j zero_head)

    -- The next parser is asked where one returns -ECANCELED.
    abbrev pub or_else : Got Tgev → Got Tgev → Got Tgev
    or_else (got e) next = got e
    or_else (err e) next = if e == ecanceled then next else err e
    or_else (broke x) next = broke x

    unfoldable pub parse_message_with : Json → Got Tgev
    unfolding parse_event_text parse_event_photo parse_event_sticker parse_event_gif
        parse_event_unknown
    parse_message_with j = or_else (parse_event_text j) (
        or_else (parse_event_photo j)
          (or_else (parse_event_sticker j) (or_else (parse_event_gif j) (parse_event_unknown j))))

  -- The fuel bounds how deep messages reply to messages.
  unfoldable pub parse_message_json_obj : ℕ → Json → Got Tgev
  unfolding parse_message_with
  parse_message_json_obj zero j = broke out_of_fuel
  parse_message_json_obj (suc n) j = parse_message_with (parse_message_json_obj n) j

  -- `struct tgev`, as far as it is not the message.
  pub record Event : Type 0 where
    pub update_id : ℕ
    pub message : Tgev

  unfoldable pub parse_message : ℕ → Json → Got Tgev
  unfolding parse_message_json_obj
  parse_message n j = elim (get_ex j (codes "message")) [
    | none ↦ err einval
    | some m ↦ parse_message_json_obj n m
  ]

  -- What json-c's tokener answers: no memory for it, an error, or an object (which may be NULL).
  pub data Token : Type 0 where
    no_tokener parse_error : Token
    object : Json → Token

  -- The return value of `tg_event_json_parse`, 0 or -e.
  abbrev pub json_ret : Token → ℤ
  json_ret no_tokener = negsuc 11
  json_ret parse_error = negsuc 21
  json_ret (object j) = pos 0

  -- `unlikely`: 0 or 1, `__builtin_expect(!!(ret), 0)`
  abbrev pub unlikely : ℤ → ℤ
  unlikely (pos n) = if n == 0 then pos 0 else pos 1
  unlikely (negsuc n) = pos 1

  abbrev pub is_negative : ℤ → Bool
  is_negative (pos n) = false
  is_negative (negsuc n) = true

  abbrev pub errno_of : ℤ → ℕ
  errno_of (pos n) = 0
  errno_of (negsuc n) = suc n

  -- From `parse_update_id` on; without an object, `evt->json` is NULL and the key is not found.
  unfoldable pub load_object : ℕ → Token → Got Event
  unfolding parse_message
  load_object n (object j) = elim (get_ex j (codes "update_id")) [
    | none ↦ err einval
    | some u ↦ bind (parse_message n j) λ m. got (record { update_id = get_uint64 u; message = m })
  ]
  load_object n no_tokener = err einval
  load_object n parse_error = err einval

  -- `internal_tg_event_load_str`; the first test is `unlikely(ret) < 0`.
  unfoldable pub tg_event_load_str : ℕ → Token → Got Event
  unfolding load_object
  tg_event_load_str n t =
      if is_negative (unlikely (json_ret t)) then err (errno_of (json_ret t)) else load_object n t
