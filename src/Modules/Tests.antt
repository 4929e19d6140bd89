-- ===== src/Modules/Tests.antt =====
-- Runs of the modules, and their theorems at concrete events.
use gnuweeb_bot.Base.{◌≡◌, ◌≢◌, refl, ok, codes, some, [], arith}
use gnuweeb_bot.Tg.Event.{Tgev, text, zero_head, null, node, wild, tge_get_reply_to}
use gnuweeb_bot.Modules.Translate.{parse_command, request, cancel}
use gnuweeb_bot.Modules.Translate.Query.{Fits, parse_command-Fits}

abbrev bonjour : Tgev
bonjour = text zero_head (some (codes "bon jour")) [] null

abbrev plain : Tgev
plain = text zero_head (some (codes "/tr fr en a&b")) [] null

abbrev answer : Tgev
answer = text zero_head (some (codes "TL de")) [] (node bonjour)

query_written :
    parse_command (codes "/tr fr  en a&b") plain
    ≡ ok (request (codes "fr=fr&to=en&text=a%26b") plain)
unfolding parse_command
query_written = refl

reply_queried :
    parse_command (codes "TL de ") answer
    ≡ ok (request (codes "to=de&fr=auto&text=bon%20jour") bonjour)
unfolding parse_command
reply_queried = refl

bare_queried :
    parse_command (codes ".tr") answer
    ≡ ok (request (codes "to=en&fr=auto&text=bon%20jour") bonjour)
unfolding parse_command
bare_queried = refl

not_named : parse_command (codes ".try me") answer ≡ ok cancel
unfolding parse_command
not_named = refl

answer-ne_wild : tge_get_reply_to answer ≢ wild
unfolding tge_get_reply_to
answer-ne_wild = ground arith

parse_command-Fits_example : Fits (parse_command (codes "TL de ") answer)
parse_command-Fits_example = parse_command-Fits (codes "TL de ") answer answer-ne_wild
