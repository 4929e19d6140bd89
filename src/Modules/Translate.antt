-- ===== src/Modules/Translate.antt =====
-- modules/002_translate/translate.c: from a command to the query of the translation service, and from
-- its answer to the reply.
pub mod Query
use gnuweeb_bot.Base.{
  ℕ, zero, suc, ◌+◌, ◌-◌, ◌*◌, Bool, true, false, ◌||◌, ◌&&◌, not, Option, none, some, List, [],
  ◌∷◌, ◌++◌, Bytes, codes, take, drop, length, strnlen, leb, ltb, ◌==◌, if◌then◌else◌, Outcome, ok,
  crash, check, out_of_bounds, ◌>>=◌, ◌>>◌,
}
use gnuweeb_bot.Base.Int.{ℤ, pos}
use gnuweeb_bot.Text.UrlEncode.{urlencode}
use gnuweeb_bot.Admin.{is_ws, to_lower, skip_ws, head_byte}
use gnuweeb_bot.Tg.Json.{JsonApi}
use gnuweeb_bot.Tg.Event.{
  Tgev, Pointer, nothing, wild, event, tge_get_text, tge_get_reply_to, tge_get_chat_id,
  tge_get_msg_id,
}
use gnuweeb_bot.Modules.{Act, send_msg, off, Done, canceled, minus}

-- CODE_BUFFER_SIZE, TEXT_BUFFER_SIZE and the size of `payload`.
abbrev pub code_buffer_size : ℕ
code_buffer_size = 32

abbrev pub text_buffer_size : ℕ
text_buffer_size = 32768

abbrev pub payload_size : ℕ
payload_size = text_buffer_size + code_buffer_size * 2

-- -ECANCELED, or the query, with the event that is replied to.
pub data Parsed : Type 0 where
  cancel : Parsed
  request : Bytes → Tgev → Parsed

-- `memcpy` at `payload_ptr`, which moves behind the text; `extra` more bytes are written. The text is
-- what stands before `payload_ptr`.
abbrev pub put : Bytes → Bytes → ℕ → Outcome Bytes
put p s extra = check (leb (length p + length s + extra) payload_size) out_of_bounds >> ok (p ++ s)

-- `urlencode` at `payload_ptr`, with the 0 that it writes.
abbrev pub put_encoded : Bytes → Bytes → ℕ → Outcome Bytes
put_encoded p s n = put p (urlencode s n true) 1

-- A loop that takes a language code: its length, and the text behind it.
unfoldable pub take_code : ℕ → Bytes → Option (ℕ × Bytes)
unfolding is_ws
take_code rcx [] = some (rcx, [])
take_code rcx (c ∷ tx) =
    let rest = take_code (rcx + 1) tx in
    if is_ws c || c == 0
    then some (rcx, c ∷ tx)
    else if leb code_buffer_size (rcx + 1)
    then none
    else rest

-- The text of the message replied to, with its event.
abbrev pub Replied : Type 0
Replied = Option (Bytes × Tgev)

abbrev pub too_long : ℕ → Bool
too_long n = ltb (8192 - 1) n

-- From `out_replied_2_arg` on.
unfoldable pub out_replied_2_arg : Bytes → Replied → Outcome Parsed
unfolding urlencode
out_replied_2_arg p none = ok cancel
out_replied_2_arg p (some (tx, evt)) = if too_long (strnlen tx 8192) then ok cancel else (do
  q ← put p (codes "&text=") 2
  r ← put_encoded q tx (strnlen tx 8192)
  ok (request r evt))

unfoldable pub out_replied_1_arg : Bytes → Replied → Outcome Parsed
unfolding out_replied_2_arg
out_replied_1_arg p rt = put p (codes "&fr=auto") 0 >>= λ q. out_replied_2_arg q rt

unfoldable pub out_replied_0_arg : Replied → Outcome Parsed
unfolding out_replied_1_arg
out_replied_0_arg rt = put [] (codes "to=en") 3 >>= λ p. out_replied_1_arg p rt

-- `left` is the number of bytes of the message from a text on.
module _ (left : Bytes → ℕ) (evt : Tgev) (rt : Replied) where
  -- Behind the target language.
  unfoldable pub with_text : Bytes → Bytes → Outcome Parsed
  unfolding out_replied_2_arg
  with_text p tx =
      if head_byte tx == 0
      then out_replied_2_arg p rt
      else (do q ← put p (codes "&text=") 2; r ← put_encoded q tx (left tx); ok (request r evt))

  abbrev pub with_target : Bytes → Bytes → Option (ℕ × Bytes) → Outcome Parsed
  with_target p back none = ok cancel
  with_target p back (some (rcx, tx)) = do
    q ← put p (codes "&to=") 0
    r ← put_encoded q back rcx
    with_text r (skip_ws tx)

  -- Behind the first language; if nothing follows it is the target, and `fr` becomes `to`.
  abbrev pub behind_source : Bytes → Bytes → Outcome Parsed
  behind_source p tx =
      if head_byte tx == 0
      then out_replied_1_arg (codes "to" ++ drop 2 p) rt
      else with_target p tx (take_code 0 tx)

  abbrev pub with_source : Bytes → Option (ℕ × Bytes) → Outcome Parsed
  with_source back none = ok cancel
  with_source back (some (rcx, tx)) = do
    p ← put [] (codes "fr=") 1
    q ← put_encoded p back rcx
    behind_source q (skip_ws tx)

  -- Behind the name of the command and white space.
  unfoldable pub with_args : Bytes → Outcome Parsed
  unfolding with_text out_replied_0_arg out_replied_1_arg take_code skip_ws
  with_args tx = if head_byte tx == 0 then out_replied_0_arg rt else with_source tx (take_code 0 tx)

-- `if (reply_to) rt_text = tge_get_text(reply_to);`
abbrev pub replied_text : Pointer → Outcome Replied
replied_text nothing = ok none
replied_text wild = crash out_of_bounds
replied_text (event r) = ok (elim (tge_get_text r) [ none ↦ none | some tx ↦ some (tx, r) ])

-- Behind the name of the command.
unfoldable pub after_tr : (Bytes → ℕ) → Tgev → Bytes → Outcome Parsed
unfolding with_args out_replied_0_arg is_ws skip_ws tge_get_reply_to tge_get_text
after_tr left evt tx = do
  rt ← replied_text (tge_get_reply_to evt)
  if not (is_ws (head_byte tx))
      then (if head_byte tx == 0 then out_replied_0_arg rt else ok cancel)
      else with_args left evt rt (skip_ws (drop 1 tx))

-- The name of the command, `tr` or `tl`, in any case.
unfoldable pub named_tr : Bytes → Bool
unfolding to_lower
named_tr tx =
    to_lower (head_byte tx) == b't'
    && (to_lower (head_byte (drop 1 tx)) == b'r' || to_lower (head_byte (drop 1 tx)) == b'l')

abbrev pub is_prefix_sign : ℕ → Bool
is_prefix_sign c = c == b'!' || c == b'.' || c == b'/' || c == b'~'

abbrev pub skip_sign : Bytes → Bytes
skip_sign tx = if is_prefix_sign (head_byte tx) then drop 1 tx else tx

unfoldable pub parse_command : Bytes → Tgev → Outcome Parsed
unfolding after_tr named_tr
parse_command text evt =
    let text_len = strnlen text 8192 in
    let tx = skip_sign text in
    if too_long text_len
    then ok cancel
    else if named_tr tx
    then after_tr (λ rest. text_len - (length text - length rest)) evt (drop 2 tx)
    else ok cancel

-- `translate_write_callback`: the bytes of the answer so far, and the number that is returned.
unfoldable pub translate_write_callback : Bytes → Bytes → Bytes × ℕ
translate_write_callback mem block =
    if leb (text_buffer_size + 4096 - 1) (length block + length mem)
    then (mem, 0)
    else (mem ++ block, length block)

module _ (api : JsonApi) where
  open api use {Json, get_ex, get_string}

  -- What the service answers: `fetch_api` fails, or its answer is no JSON, or it is an object.
  pub data Fetched : Type 0 where
    fetch_failed : ℕ → Fetched
    invalid : Fetched
    answered : Json → Fetched

  abbrev text_or : Bytes → Option Bytes → Bytes
  text_or instead none = instead
  text_or instead (some s) = s

  unfoldable pub reply_text : Json → Bytes
  reply_text obj = elim (get_ex obj (codes "result")) [
    | some res ↦ text_or (codes "Error: `result` is NULL") (get_string res)
    | none ↦ elim (get_ex obj (codes "error")) [
      | some res ↦ text_or (codes "Error: unknown error!") (get_string res)
      | none ↦ codes "Error: unknown error!"
    ]
  ]

  abbrev pub send_reply_text : Tgev → Bytes → Done
  send_reply_text evt reply =
      ok (send_msg off (tge_get_chat_id evt) (tge_get_msg_id evt) reply ∷ [], pos 0)

  unfoldable pub handle_translate_module : Fetched → Tgev → Done
  unfolding reply_text tge_get_chat_id tge_get_msg_id
  handle_translate_module (fetch_failed e) evt = ok ([], minus e)
  handle_translate_module invalid evt =
      send_reply_text evt (codes "Error: Invalid JSON data from API")
  handle_translate_module (answered obj) evt = send_reply_text evt (reply_text obj)

  -- `fetch_api` is asked at the query.
  module _ (fetch_api : Bytes → Fetched) where
    abbrev pub translate_parsed : Outcome Parsed → Done
    translate_parsed (ok cancel) = ok ([], canceled)
    translate_parsed (ok (request p evt)) = handle_translate_module (fetch_api p) evt
    translate_parsed (crash x) = crash x

    abbrev pub translate_text : Tgev → Option Bytes → Done
    translate_text evt none = ok ([], canceled)
    translate_text evt (some tx) = translate_parsed (parse_command tx evt)

    unfoldable pub do_translate : Tgev → Done
    unfolding handle_translate_module parse_command tge_get_text
    do_translate evt = translate_text evt (tge_get_text evt)
