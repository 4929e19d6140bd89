-- ===== src/Tga/Admins.antt =====
-- lib/tg_api/get_chat_administrators.c: the administrators of a chat, from the JSON of the answer.
pub mod Listed
use gnuweeb_bot.Base.{
  ℕ, zero, suc, ◌+◌, ◌-◌, Bool, false, not, Outcome, ok, crash, aborted, Option, none, some, List,
  [], ◌∷◌, ◌++◌, map, length, take, replicate, if◌then◌else◌, has_prefix, Bytes, codes,
}
use gnuweeb_bot.Server.State.{Sys, done, failed, einval}
use gnuweeb_bot.Tg.Json.{JsonApi}
use gnuweeb_bot.Tg.Info.{sane_strncpy}
use gnuweeb_bot.Tga.Response.{enomem}
use gnuweeb_bot.Tga.Post.{ebadmsg}

-- `chmem_status_t`
pub data Status : Type 0 where
  nop_status creator administrator plain_member restricted left kicked : Status

-- `struct tga_user`; `lang` without its 0.
pub record TgaUser : Type 0 where
  pub id : ℕ
  pub first_name : Option Bytes
  pub last_name : Option Bytes
  pub username : Option Bytes
  pub is_bot : Bool
  pub lang : Bytes

-- `struct tga_chat_member`
pub record ChatMember : Type 0 where
  pub user : TgaUser
  pub status : Status

-- As `calloc` leaves it.
abbrev pub zero_member : ChatMember
zero_member = record {
  user = record {
    id = 0;
    first_name = none;
    last_name = none;
    username = none;
    is_bot = false;
    lang = [];
  };
  status = nop_status;
}

unfoldable pub map_to_status : Option Bytes → Status
map_to_status none = nop_status
map_to_status (some sta) =
    if has_prefix (codes "creator") sta
    then creator
    else if has_prefix (codes "administrator") sta
    then administrator
    else if has_prefix (codes "member") sta
    then plain_member
    else if has_prefix (codes "restricted") sta
    then restricted
    else if has_prefix (codes "left") sta
    then creator
    else if has_prefix (codes "kicked") sta
    then kicked
    else nop_status

module _ (api : JsonApi) where
  open api use {
    Json, is_null, get_ex, get_string, get_uint64, get_boolean, is_array, array_length,
    array_get_idx, calloc_ok,
  }

  -- `json_object_object_get_ex(...) && res`
  unfoldable pub found : Json → Bytes → Option Json
  found j key = elim (get_ex j key) [
    | none ↦ none
    | some res ↦ if is_null res then none else some res
  ]

  abbrev pub text_of : Option Json → Option Bytes
  text_of none = none
  text_of (some j) = get_string j

  abbrev pub lang_of : Option Bytes → Bytes
  lang_of none = []
  lang_of (some s) = sane_strncpy s 4

  abbrev pub status_of : Option Json → Status
  status_of none = nop_status
  status_of (some j) = map_to_status (get_string j)

  -- The entry made of an element, its user and the id.
  unfoldable pub make_member : Json → Json → Json → ChatMember
  unfolding found map_to_status sane_strncpy
  make_member sub user id = record {
    user = record {
      id = get_uint64 id;
      first_name = text_of (found user (codes "first_name"));
      last_name = none;
      username = text_of (found user (codes "username"));
      is_bot = elim (found user (codes "is_bot")) [ none ↦ false | some b ↦ get_boolean b ];
      lang = lang_of (text_of (found user (codes "lang")));
    };
    status = status_of (found sub (codes "status"));
  }

  -- A round of the loop, `none` for `continue`.
  unfoldable pub parse_admin : Json → Option ChatMember
  unfolding make_member found
  parse_admin sub = if is_null sub then none else elim (found sub (codes "user")) [
    | none ↦ none
    | some user ↦ elim (found user (codes "id")) [
      | none ↦ none
      | some id ↦ some (make_member sub user id)
    ]
  ]

  -- The entries that the loop fills, from the index `i` on; one that is left early fills none.
  unfoldable pub filled_admins : Json → ℕ → ℕ → List ChatMember
  unfolding parse_admin
  filled_admins res zero i = []
  filled_admins res (suc n) i =
      let rest = filled_admins res n (suc i) in
      elim (parse_admin (array_get_idx res i)) [ none ↦ rest | some m ↦ m ∷ rest ]

  -- The array and the number `*admin_cp`, or the error; or the end of the program.
  abbrev pub Admins : Type 0
  Admins = Outcome (Sys (List ChatMember × ℕ))

  unfoldable pub parse_result : Json → Admins
  unfolding filled_admins
  parse_result res =
      let n = array_length res in
      let entries = filled_admins res n 0 in
      if not (is_array res)
      then crash aborted
      else if calloc_ok res
      then ok (done (entries ++ replicate (n + 1 - length entries) zero_member, n))
      else ok (failed enomem)

  unfoldable pub parse_tga_admins : Json → Admins
  unfolding parse_result found
  parse_tga_admins obj = elim (found obj (codes "ok")) [
    | none ↦ ok (failed einval)
    | some b ↦
        if get_boolean b
        then elim (found obj (codes "result")) [
          | none ↦ ok (failed einval)
          | some res ↦ parse_result res
        ]
        else ok (failed ebadmsg)
  ]

-- The ids that a loop over `admin_c` entries of the array reads.
unfoldable pub read_ids : List ChatMember → ℕ → List ℕ
read_ids admins n = map (λ (m : ChatMember). m.user.id) (take n admins)
