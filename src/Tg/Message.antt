-- ===== src/Tg/Message.antt =====
-- The fields that the five kinds of message have alike: what stands from `message_id` to `date` in the
-- functions parse_event_* (include/gwbot/lib/tg_event/*.h).
use gnuweeb_bot.Base.{Bool, true, false, none, some, codes}
use gnuweeb_bot.Base.Int.{pos}
use gnuweeb_bot.Tg.Json.{JsonApi}
use gnuweeb_bot.Tg.Fill.{Fill, ◌>>=◌, ◌>>◌, give, store, load, within}
use gnuweeb_bot.Tg.Event.{From, Chat, Head}
use gnuweeb_bot.Tg.Info.{require, parse_tgevi_from, parse_tgevi_chat}

abbrev pub set_from : From → Head → Head
set_from f h = record h { from = f }

abbrev pub set_forward_from : From → Head → Head
set_forward_from f h = record h { forward_from = f }

abbrev pub set_chat : Chat → Head → Head
set_chat c h = record h { chat = c }

abbrev pub set_sender_chat : Chat → Head → Head
set_sender_chat c h = record h { sender_chat = c }

module _ (api : JsonApi) where
  open api use {Json, get_ex, get_string, get_uint64, get_int64}

  -- Who has sent the message first, if it is forwarded.
  unfoldable pub parse_forward : Json → Fill Head (Unit {0})
  unfolding parse_tgevi_from
  parse_forward j = elim (get_ex j (codes "forward_from")) [
    | some res ↦ (do
      within (λ (h : Head). h.forward_from) set_forward_from (parse_tgevi_from api res)
      store λ (h : Head). record h {
        is_forwarded = true;
        is_unknown_fwd = false;
        fwd_sender_name = none;
      })
    | none ↦ elim (get_ex j (codes "forward_sender_name")) [
      | none ↦ store λ (h : Head). record h {
        forward_date = pos 0;
        is_forwarded = false;
        is_unknown_fwd = false;
        fwd_sender_name = none;
      }
      | some name ↦ store λ (h : Head). record h {
        fwd_sender_name = get_string name;
        is_forwarded = true;
        is_unknown_fwd = true;
      }
    ]
  ]

  unfoldable pub parse_forward_date : Json → Bool → Fill Head (Unit {0})
  parse_forward_date j false = give tt
  parse_forward_date j true = do
    date ← require api j (codes "forward_date")
    store λ (h : Head). record h { forward_date = get_int64 date }

  unfoldable pub parse_sender_chat : Json → Fill Head (Unit {0})
  unfolding parse_tgevi_chat
  parse_sender_chat j = elim (get_ex j (codes "sender_chat")) [
    | none ↦ give tt
    | some res ↦ within (λ (h : Head). h.sender_chat) set_sender_chat (parse_tgevi_chat api res)
  ]

  -- From `message_id` to `date`, which all five parsers of a message do alike.
  unfoldable pub parse_head : Json → Fill Head (Unit {0})
  unfolding parse_tgevi_from parse_forward parse_forward_date parse_tgevi_chat parse_sender_chat
  parse_head j = do
    id ← require api j (codes "message_id")
    store λ (h : Head). record h { msg_id = get_uint64 id }
    from ← require api j (codes "from")
    within (λ (h : Head). h.from) set_from (parse_tgevi_from api from)
    parse_forward j
    forwarded ← load λ (h : Head). h.is_forwarded
    parse_forward_date j forwarded
    chat ← require api j (codes "chat")
    within (λ (h : Head). h.chat) set_chat (parse_tgevi_chat api chat)
    parse_sender_chat j
    date ← require api j (codes "date")
    store λ (h : Head). record h { date = get_int64 date }
