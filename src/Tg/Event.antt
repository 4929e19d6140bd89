-- ===== src/Tg/Event.antt =====
-- The structs of an event (include/gwbot/lib/tg_event.h and the headers it includes), and how the
-- modules read them.
use gnuweeb_bot.Base.{
  ℕ, Bool, false, Option, none, some, List, [], Bytes, length, ◌==◌, if◌then◌else◌,
}
use gnuweeb_bot.Base.Int.{ℤ, pos}

-- `struct tgevi_file`
pub record FileInfo : Type 0 where
  pub file_name : Option Bytes
  pub file_id : Option Bytes
  pub file_unique_id : Option Bytes
  pub mime_type : Option Bytes
  pub file_size : ℕ
  pub width : ℕ
  pub height : ℕ

-- `struct tgevi_media`
pub record Media : Type 0 where
  pub file_id : Option Bytes
  pub file_name : Option Bytes
  pub mime_type : Option Bytes
  pub title : Option Bytes
  pub performer : Option Bytes
  pub file_unique_id : Option Bytes
  pub file_size : ℕ
  pub duration : ℕ
  pub width : ℕ
  pub height : ℕ
  pub thumb : FileInfo

-- `struct tgevi_from`; `lang` without its 0.
pub record From : Type 0 where
  pub id : ℕ
  pub first_name : Option Bytes
  pub last_name : Option Bytes
  pub username : Option Bytes
  pub lang : Bytes
  pub is_bot : Bool

-- `tgev_chat_type_t`; `unset` is the 0 before a type is stored.
pub data ChatType : Type 0 where
  unset group supergroup private_chat : ChatType

-- `struct tgevi_chat`
pub record Chat : Type 0 where
  pub id : ℤ
  pub title : Option Bytes
  pub username : Option Bytes
  pub first_name : Option Bytes
  pub last_name : Option Bytes
  pub type : ChatType
  pub all_admins : Bool

-- `struct tgevi_entity`
pub record Entity : Type 0 where
  pub offset : ℕ
  pub length : ℕ
  pub type : Option Bytes

-- `struct tgevi_sticker`; `emoji` without its 0.
pub record Sticker : Type 0 where
  pub width : ℕ
  pub height : ℕ
  pub emoji : Bytes
  pub set_name : Option Bytes
  pub thumb : FileInfo
  pub is_animated : Bool
  pub file_id : Option Bytes
  pub file_unique_id : Option Bytes
  pub file_size : ℕ

-- The fields that all five structs of a message have.
pub record Head : Type 0 where
  pub msg_id : ℕ
  pub from : From
  pub forward_from : From
  pub fwd_sender_name : Option Bytes
  pub chat : Chat
  pub sender_chat : Chat
  pub date : ℤ
  pub forward_date : ℤ
  pub is_forwarded : Bool
  pub is_unknown_fwd : Bool

-- The structs as `memset` and `calloc` leave them.
abbrev pub zero_file : FileInfo
zero_file = record {
  file_name = none;
  file_id = none;
  file_unique_id = none;
  mime_type = none;
  file_size = 0;
  width = 0;
  height = 0;
}

abbrev pub zero_media : Media
zero_media = record {
  file_id = none;
  file_name = none;
  mime_type = none;
  title = none;
  performer = none;
  file_unique_id = none;
  file_size = 0;
  duration = 0;
  width = 0;
  height = 0;
  thumb = zero_file;
}

abbrev pub zero_from : From
zero_from = record {
  id = 0;
  first_name = none;
  last_name = none;
  username = none;
  lang = [];
  is_bot = false;
}

abbrev pub zero_chat : Chat
zero_chat = record {
  id = pos 0;
  title = none;
  username = none;
  first_name = none;
  last_name = none;
  type = unset;
  all_admins = false;
}

abbrev pub zero_entity : Entity
zero_entity = record { offset = 0; length = 0; type = none }

abbrev pub zero_sticker : Sticker
zero_sticker = record {
  width = 0;
  height = 0;
  emoji = [];
  set_name = none;
  thumb = zero_file;
  is_animated = false;
  file_id = none;
  file_unique_id = none;
  file_size = 0;
}

abbrev pub zero_head : Head
zero_head = record {
  msg_id = 0;
  from = zero_from;
  forward_from = zero_from;
  fwd_sender_name = none;
  chat = zero_chat;
  sender_chat = zero_chat;
  date = pos 0;
  forward_date = pos 0;
  is_forwarded = false;
  is_unknown_fwd = false;
}

-- `struct tgev` with the member of its union that `type` names. The last component of each is the
-- member's `reply_to`, NULL or a node of its own.
mutual
  pub data Tgev : Type 0 where
    unknown : Head → List Entity → Reply → Tgev
    text : Head → Option Bytes → List Entity → Reply → Tgev
    photo : Head → List FileInfo → Option Bytes → List Entity → Reply → Tgev
    sticker : Head → Sticker → Reply → Tgev
    gif : Head → Media → FileInfo → Option Bytes → List Entity → Reply → Tgev

  pub data Reply : Type 0 where
    null : Reply
    node : Tgev → Reply

-- `evt->type`
abbrev pub type_of : Tgev → ℕ
type_of (unknown h es r) = 1
type_of (text h t es r) = 2
type_of (photo h ph c es r) = 4
type_of (sticker h s r) = 8
type_of (gif h a d c es r) = 16

abbrev pub head_of : Tgev → Head
head_of (unknown h es r) = h
head_of (text h t es r) = h
head_of (photo h ph c es r) = h
head_of (sticker h s r) = h
head_of (gif h a d c es r) = h

unfoldable pub tge_get_chat_id : Tgev → ℤ
tge_get_chat_id (unknown h es r) = h.chat.id
tge_get_chat_id (text h t es r) = h.chat.id
tge_get_chat_id (photo h ph c es r) = h.chat.id
tge_get_chat_id (sticker h s r) = h.chat.id
tge_get_chat_id (gif h a d c es r) = h.chat.id

unfoldable pub tge_get_text : Tgev → Option Bytes
tge_get_text (unknown h es r) = none
tge_get_text (text h t es r) = t
tge_get_text (photo h ph c es r) = c
tge_get_text (sticker h s r) = none
tge_get_text (gif h a d c es r) = c

unfoldable pub tge_get_msg_id : Tgev → ℕ
tge_get_msg_id (unknown h es r) = h.msg_id
tge_get_msg_id (text h t es r) = h.msg_id
tge_get_msg_id (photo h ph c es r) = h.msg_id
tge_get_msg_id (sticker h s r) = h.msg_id
tge_get_msg_id (gif h a d c es r) = h.msg_id

unfoldable pub tge_get_from : Tgev → From
tge_get_from (unknown h es r) = h.from
tge_get_from (text h t es r) = h.from
tge_get_from (photo h ph c es r) = h.from
tge_get_from (sticker h s r) = h.from
tge_get_from (gif h a d c es r) = h.from

unfoldable pub tge_get_user_id : Tgev → ℕ
tge_get_user_id (unknown h es r) = h.from.id
tge_get_user_id (text h t es r) = h.from.id
tge_get_user_id (photo h ph c es r) = h.from.id
tge_get_user_id (sticker h s r) = h.from.id
tge_get_user_id (gif h a d c es r) = h.from.id

-- What a pointer that should be a `struct tgev *` is: NULL, a node, or other bytes of the struct.
pub data Pointer : Type 0 where
  nothing wild : Pointer
  event : Tgev → Pointer

abbrev pub pointer : Reply → Pointer
pointer null = nothing
pointer (node e) = event e

-- A pointer to text, read as one to an event.
abbrev pub text_pointer : Option Bytes → Pointer
text_pointer none = nothing
text_pointer (some s) = wild

-- For every type the code reads `msg_text.reply_to`, which is the field 40 bytes behind `sender_chat`
-- (with pointers and `time_t` of eight bytes). Of a photo that is `caption_entity_c` with padding
-- behind it, of a sticker `sticker.thumb.file_unique_id`, of an animation `animation.file_unique_id`.
unfoldable pub tge_get_reply_to : Tgev → Pointer
tge_get_reply_to (unknown h es r) = nothing
tge_get_reply_to (text h t es r) = pointer r
tge_get_reply_to (photo h ph c es r) = if length es == 0 then nothing else wild
tge_get_reply_to (sticker h s r) = text_pointer s.thumb.file_unique_id
tge_get_reply_to (gif h a d c es r) = text_pointer a.file_unique_id
