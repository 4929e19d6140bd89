-- ===== src/Tg/Info.antt =====
-- The parsers of the parts of an event (include/gwbot/lib/tg_event.h, and what stands above the
-- functions parse_event_* in the headers it includes).
use gnuweeb_bot.Base.{
  ℕ, zero, suc, ◌+◌, ◌-◌, ◌%◌, ◌^◌, false, Option, none, some, List, [], ◌∷◌, Bytes, codes, ◌==◌,
  if◌then◌else◌, take, strnlen, out_of_bounds,
}
use gnuweeb_bot.Tg.Json.{JsonApi}
use gnuweeb_bot.Tg.Fill.{Got, got, err, broke, Fill, ◌>>=◌, ◌>>◌, give, fail, store, within}
use gnuweeb_bot.Tg.Event.{
  FileInfo, Media, From, ChatType, group, supergroup, private_chat, Chat, Entity, Sticker,
  zero_entity, zero_file,
}

abbrev pub einval : ℕ
einval = 22

abbrev pub enomem : ℕ
enomem = 12

abbrev pub u16 : ℕ → ℕ
u16 n = n % 2 ^ 16

-- `sane_strncpy` into `n` bytes: the text stored, without its 0.
unfoldable pub sane_strncpy : Bytes → ℕ → Bytes
sane_strncpy src n = take (strnlen src (n - 1)) src

abbrev pub set_sticker_thumb : FileInfo → Sticker → Sticker
set_sticker_thumb f s = record s { thumb = f }

abbrev pub set_media_thumb : FileInfo → Media → Media
set_media_thumb f m = record m { thumb = f }

module _ (api : JsonApi) where
  open api use {
    Json, get_ex, get_string, get_uint64, get_int64, get_boolean, array_length, array_get_idx,
    calloc_ok,
  }

  -- A key without which the parser returns -EINVAL.
  abbrev pub require : {S : Type 0} → Json → Bytes → Fill S Json
  require j key = elim (get_ex j key) [ none ↦ fail einval | some res ↦ give res ]

  -- The text of a key that need not be there, else NULL.
  abbrev pub optional : Json → Bytes → Option Bytes
  optional j key = elim (get_ex j key) [ none ↦ none | some res ↦ get_string res ]

  unfoldable pub parse_tgevi_file : Json → Fill FileInfo (Unit {0})
  parse_tgevi_file j = do
    store λ (f : FileInfo). record f { file_name = optional j (codes "file_name") }
    store λ (f : FileInfo). record f { mime_type = optional j (codes "mime_type") }
    id ← require j (codes "file_id")
    store λ (f : FileInfo). record f { file_id = get_string id }
    uid ← require j (codes "file_unique_id")
    store λ (f : FileInfo). record f { file_unique_id = get_string uid }
    size ← require j (codes "file_size")
    store λ (f : FileInfo). record f { file_size = get_uint64 size }
    elim (get_ex j (codes "width")) [
      | none ↦ store λ (f : FileInfo). record f { width = 0; height = 0 }
      | some w ↦ (do
        store λ (f : FileInfo). record f { width = u16 (get_uint64 w) }
        h ← require j (codes "height")
        store λ (f : FileInfo). record f { height = u16 (get_uint64 h) })
    ]

  -- The thumbnail is parsed from the object of the media itself.
  unfoldable pub parse_tgevi_media : Json → Fill Media (Unit {0})
  unfolding parse_tgevi_file
  parse_tgevi_media j = do
    name ← require j (codes "file_name")
    store λ (m : Media). record m { file_name = get_string name }
    mime ← require j (codes "mime_type")
    store λ (m : Media). record m { mime_type = get_string mime }
    store λ (m : Media). record m {
      duration = elim (get_ex j (codes "duration")) [ none ↦ 0 | some d ↦ get_uint64 d % 2 ^ 32 ];
    }
    elim (get_ex j (codes "width")) [
      | none ↦ store λ (m : Media). record m { width = 0; height = 0 }
      | some w ↦ (do
        store λ (m : Media). record m { width = u16 (get_uint64 w) }
        h ← require j (codes "height")
        store λ (m : Media). record m { height = u16 (get_uint64 h) })
    ]
    store λ (m : Media). record m { title = optional j (codes "title") }
    store λ (m : Media). record m { performer = optional j (codes "performer") }
    id ← require j (codes "file_id")
    store λ (m : Media). record m { file_id = get_string id }
    uid ← require j (codes "file_unique_id")
    store λ (m : Media). record m { file_unique_id = get_string uid }
    size ← require j (codes "file_size")
    store λ (m : Media). record m { file_size = get_uint64 size }
    elim (get_ex j (codes "thumb")) [
      | none ↦ give tt
      | some t ↦ within (λ (m : Media). m.thumb) set_media_thumb (parse_tgevi_file j)
    ]

  -- One round of the loop of `parse_tgevi_entities`: each `continue` leaves the rest as it is.
  abbrev pub entity_at : Json → Entity
  entity_at j = elim (get_ex j (codes "offset")) [
    | none ↦ zero_entity
    | some o ↦ elim (get_ex j (codes "length")) [
      | none ↦ record zero_entity { offset = u16 (get_uint64 o) }
      | some l ↦ record {
        offset = u16 (get_uint64 o);
        length = u16 (get_uint64 l);
        type = optional j (codes "type");
      }
    ]
  ]

  -- The objects of an array at the indices from `i` on, `n` of them.
  abbrev pub elements : Json → ℕ → ℕ → List Json
  elements j i zero = []
  elements j i (suc n) = array_get_idx j i ∷ elements j (i + 1) n

  abbrev pub entities_of : List Json → List Entity
  entities_of [] = []
  entities_of (j ∷ js) = entity_at j ∷ entities_of js

  unfoldable pub parse_tgevi_entities : Json → ℕ → Got (List Entity)
  parse_tgevi_entities j n = if calloc_ok j then got (entities_of (elements j 0 n)) else err enomem

  unfoldable pub parse_tgevi_from : Json → Fill From (Unit {0})
  unfolding sane_strncpy
  parse_tgevi_from j = do
    id ← require j (codes "id")
    store λ (f : From). record f { id = get_uint64 id }
    name ← require j (codes "first_name")
    store λ (f : From). record f { first_name = get_string name }
    store λ (f : From). record f { last_name = optional j (codes "last_name") }
    store λ (f : From). record f { username = optional j (codes "username") }
    store λ (f : From). record f {
      lang = elim (optional j (codes "language_code")) [ none ↦ [] | some s ↦ sane_strncpy s 4 ];
    }
    store λ (f : From). record f {
      is_bot = elim (get_ex j (codes "is_bot")) [ none ↦ false | some b ↦ get_boolean b ];
    }

  -- The type that the first byte of the text stands for.
  unfoldable pub chat_type : ℕ → Option ChatType
  chat_type c =
      if c == b's'
      then some supergroup
      else if c == b'g'
      then some group
      else if c == b'p'
      then some private_chat
      else none

  abbrev pub first_byte : Bytes → ℕ
  first_byte [] = 0
  first_byte (c ∷ s) = c

  abbrev pub as_type : Option ChatType → Fill Chat ChatType
  as_type none = fail einval
  as_type (some t) = give t

  abbrev pub type_text : Option Bytes → Fill Chat ChatType
  type_text none = fail einval
  type_text (some s) = as_type (chat_type (first_byte s))

  -- What a chat of the type must have.
  unfoldable pub chat_names : Json → ChatType → Fill Chat (Unit {0})
  chat_names j private_chat = do
    store λ (c : Chat). record c { title = none }
    name ← require j (codes "first_name")
    store λ (c : Chat). record c { first_name = get_string name }
    store λ (c : Chat). record c { last_name = optional j (codes "last_name") }
  chat_names j group = do
    all ← require j (codes "all_members_are_administrators")
    store λ (c : Chat). record c { all_admins = get_boolean all }
    title ← require j (codes "title")
    store λ (c : Chat). record c { title = get_string title }
  chat_names j other = do
    title ← require j (codes "title")
    store λ (c : Chat). record c { title = get_string title }

  unfoldable pub parse_tgevi_chat : Json → Fill Chat (Unit {0})
  unfolding chat_type chat_names
  parse_tgevi_chat j = do
    id ← require j (codes "id")
    store λ (c : Chat). record c { id = get_int64 id }
    type ← require j (codes "type")
    t ← type_text (get_string type)
    store λ (c : Chat). record c { type = t }
    chat_names j t
    store λ (c : Chat). record c { username = optional j (codes "username") }

  -- `strncpy` from NULL is not defined.
  abbrev pub emoji_text : Option Bytes → Fill Sticker (Unit {0})
  emoji_text none s = (s, broke out_of_bounds)
  emoji_text (some e) s = (record s { emoji = sane_strncpy e 6 }, got tt)

  unfoldable pub parse_tgevi_sticker : Json → Fill Sticker (Unit {0})
  unfolding sane_strncpy parse_tgevi_file
  parse_tgevi_sticker j = do
    w ← require j (codes "width")
    store λ (s : Sticker). record s { width = u16 (get_uint64 w) }
    h ← require j (codes "height")
    store λ (s : Sticker). record s { height = u16 (get_uint64 h) }
    emoji ← require j (codes "emoji")
    emoji_text (get_string emoji)
    name ← require j (codes "set_name")
    store λ (s : Sticker). record s { set_name = get_string name }
    moves ← require j (codes "is_animated")
    store λ (s : Sticker). record s { is_animated = get_boolean moves }
    id ← require j (codes "file_id")
    store λ (s : Sticker). record s { file_id = get_string id }
    uid ← require j (codes "file_unique_id")
    store λ (s : Sticker). record s { file_unique_id = get_string uid }
    size ← require j (codes "file_size")
    store λ (s : Sticker). record s { file_size = get_uint64 size }
    thumb ← require j (codes "thumb")
    within (λ (s : Sticker). s.thumb) set_sticker_thumb (parse_tgevi_file thumb)

  -- The loop of `parse_tgevi_photos`; what a photo's parser returns is not looked at.
  abbrev pub photos_of : List Json → List FileInfo
  photos_of [] = []
  photos_of (j ∷ js) = (parse_tgevi_file j zero_file).0 ∷ photos_of js

  unfoldable pub parse_tgevi_photos : Json → ℕ → Got (List FileInfo)
  unfolding parse_tgevi_file
  parse_tgevi_photos j n = if calloc_ok j then got (photos_of (elements j 0 n)) else err enomem
