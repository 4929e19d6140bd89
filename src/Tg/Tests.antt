-- ===== src/Tg/Tests.antt =====
-- Runs of the parser of events, and its theorems at a concrete object.
use gnuweeb_bot.Base.{ℕ, ◌≡◌, ◌≢◌, refl, arith, out_of_fuel, some, [], ◌∷◌, codes}
use gnuweeb_bot.Tg.Sample.{tree, depth, get_ex-depth, Doc, hello, ban, ban_event}
use gnuweeb_bot.Tg.Fill.{Got, got, err, broke}
use gnuweeb_bot.Tg.Event.{type_of, photo, zero_head, zero_entity, null, wild, tge_get_reply_to}
use gnuweeb_bot.Tg.Parse.{parse_message_json_obj, no_tokener, tg_event_load_str}
use gnuweeb_bot.Tg.Parse.Kind.{kind_of, IdsOf, parse_message_json_obj-IdsOf}
use gnuweeb_bot.Tg.Parse.Depth.{parse_message_json_obj-terminates}

abbrev result : (n : ℕ) → Doc → Got ℕ
result n j = elim (parse_message_json_obj tree n j) [
  | got e ↦ got (type_of e)
  | err e ↦ err e
  | broke x ↦ broke x
]

hello_text : result 1 hello ≡ got 2
unfolding parse_message_json_obj
hello_text = refl

ban_text : result 2 ban ≡ got 2
unfolding parse_message_json_obj
ban_text = refl

no_fuel : result 1 ban ≡ broke out_of_fuel
unfolding parse_message_json_obj
no_fuel = refl

ban_parsed : parse_message_json_obj tree 2 ban ≡ got ban_event
unfolding parse_message_json_obj
ban_parsed = refl

text_kind : kind_of tree ban ≢ 1
unfolding kind_of
text_kind = ground arith

parse_message_json_obj-IdsOf_example : IdsOf tree ban ban_event
parse_message_json_obj-IdsOf_example =
    parse_message_json_obj-IdsOf tree 2 ban ban_event ban_parsed text_kind

parse_message_json_obj-terminates_example : parse_message_json_obj tree 50 ban ≢ broke out_of_fuel
parse_message_json_obj-terminates_example =
    parse_message_json_obj-terminates tree depth get_ex-depth 50 ban (omega arith)

-- Of a photo whose caption has entities, the reply pointer is no pointer to an event.
photo_stray :
    tge_get_reply_to (photo zero_head [] (some (codes "/ban")) (zero_entity ∷ []) null) ≡ wild
unfolding tge_get_reply_to
photo_stray = refl

-- Without memory for the tokener the error is EINVAL, not ENOMEM.
no_memory : tg_event_load_str tree 1 no_tokener ≡ err 22
unfolding tg_event_load_str
no_memory = refl
