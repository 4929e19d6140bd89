-- ===== src/Tg/Json.antt =====
-- What the parser of events uses of json-c, and what memory it finds.
use gnuweeb_bot.Base.{ℕ, Bool, Option, Bytes}
use gnuweeb_bot.Base.Int.{ℤ}

-- A value of `Json` is a `json_object *`, NULL (which stands for the value null) among them.
-- `get_ex` is `json_object_object_get_ex`, `none` where it returns false; `get_string` may be NULL.
-- `array_length` and `array_get_idx` are asked of arrays only: json_object_array_length asserts that
-- its object `is_array`, and aborts the program for another. `calloc_ok` and `malloc_ok` say whether memory is found for the array made from an object and for
-- the node of a message that is replied to.
pub record JsonApi : Type 1 where
  pub Json : Type 0
  pub is_null : Json → Bool
  pub get_ex : Json → Bytes → Option Json
  pub get_string : Json → Option Bytes
  pub get_uint64 : Json → ℕ
  pub get_int64 : Json → ℤ
  pub get_boolean : Json → Bool
  pub is_array : Json → Bool
  pub array_length : Json → ℕ
  pub array_get_idx : Json → ℕ → Json
  pub calloc_ok : Json → Bool
  pub malloc_ok : Json → Bool
