-- ===== src/Tga/Tests.antt =====
-- Tests of the requests to the Telegram API, and its theorems at concrete inputs.
use gnuweeb_bot.Base.{◌≡◌, refl, true, false, some, [], ◌∷◌, Bytes, codes, arith, leb, ok, inl}
use gnuweeb_bot.Base.Int.{pos, negsuc}
use gnuweeb_bot.Text.Decimal.{print_i64}
use gnuweeb_bot.Tg.Sample.{Doc, number, object, array, end, member, tree}
use gnuweeb_bot.Tga.Post.{Handle, Transfer, Curl, tga_screate, make_url, tg_api_post}
use gnuweeb_bot.Tga.Post.Success.{Granted, Succeeds, tg_api_post-Succeeds}
use gnuweeb_bot.Tga.Post.Answer.{Answers, FairCurl, tg_api_post-Answers}
use gnuweeb_bot.Tga.Body.{
  DeleteMsg, delete_msg_body, KickMember, SendMsg, html, kick_chat_member_body, send_msg_body,
}
use gnuweeb_bot.Tga.Body.Reads.{Reads, delete_msg_body-Reads}
use gnuweeb_bot.Tga.Body.Send.{Sends, send_msg_body-Sends}
use gnuweeb_bot.Tga.Admins.{parse_tga_admins}
use gnuweeb_bot.Tga.Admins.Listed.{Answered, parse_tga_admins-Answered}

printed_negative : print_i64 (negsuc 1000000000041) ≡ codes "-1000000000042"
unfolding print_i64
printed_negative = refl

abbrev the_message : DeleteMsg
the_message = record { chat_id = negsuc 1000000000041; message_id = 9 }

delete_msg_body-Reads_example :
    (b : Bytes) × (delete_msg_body the_message ≡ ok b) × Reads the_message b
delete_msg_body-Reads_example = delete_msg_body-Reads the_message (omega arith) (omega arith)

url_made :
    make_url (codes "12:ab") (codes "sendMessage")
    ≡ ok (codes "https://api.telegram.org/bot12:ab/sendMessage")
unfolding make_url
url_made = refl

abbrev answer : Transfer
answer = record {
  chunks =
      record { piece = codes "{\"ok\":"; grants = λ n. leb n 0x1_0000 }
      ∷ record { piece = codes "true}"; grants = λ n. leb n 0x1_0000 }
      ∷ [];
  succeeds = true;
}

abbrev the_curl : Curl
the_curl = record {
  heap = record { fresh = λ i. 0xaa; malloc_ok = true };
  init_ok = true;
  perform = λ sent. answer;
}

abbrev the_handle : Handle
the_handle = record (tga_screate (codes "12:ab")) { method = some (codes "getMe") }

the_curl-FairCurl : FairCurl the_curl
the_curl-FairCurl sent =
    ((omega arith, λ n h. ground arith), ((omega arith, λ n h. ground arith), tt))

tg_api_post-Answers_example : Answers the_curl the_handle (tg_api_post the_curl the_handle)
unfolding tga_screate
tg_api_post-Answers_example = tg_api_post-Answers the_curl the_handle the_curl-FairCurl (inl refl)

the_curl-Granted : Granted the_curl
the_curl-Granted = record {
  malloc_ok = refl;
  init_ok = refl;
  succeeds = λ sent. refl;
  fair = the_curl-FairCurl;
  generous = λ sent. ((λ n h. ground arith), ((λ n h. ground arith), tt));
}

tg_api_post-Succeeds_example : Succeeds the_curl (tg_api_post the_curl the_handle)
unfolding tga_screate
tg_api_post-Succeeds_example =
    tg_api_post-Succeeds the_curl the_handle (codes "12:ab") (codes "getMe") the_curl-Granted
      (inl refl) refl refl (λ e. ground arith)

abbrev the_kick : KickMember
the_kick = record { chat_id = negsuc 41; user_id = 7; until_date = pos 0; revoke_msg = false }

kick_made : kick_chat_member_body the_kick ≡ ok (codes "chat_id=-42&user_id=7&revoke_messages=0")
unfolding kick_chat_member_body
kick_made = refl

abbrev the_text : SendMsg
the_text = record {
  chat_id = negsuc 41;
  reply_to_msg_id = 9;
  text = codes "a&b=1 <b>";
  parse_mode = html;
}

text_made :
    send_msg_body the_text
    ≡ ok (some (codes "chat_id=-42&reply_to_message_id=9&parse_mode=html&text=a%26b%3D1%20%3Cb%3E"))
unfolding send_msg_body
text_made = refl

send_msg_body-Sends_example :
    (b : Bytes) × (send_msg_body the_text ≡ ok (some b)) × Sends the_text b
send_msg_body-Sends_example =
    send_msg_body-Sends the_text
      (
        omega arith,
        (
          omega arith,
          (
            omega arith,
            (
              omega arith,
              (omega arith, (omega arith, (omega arith, (omega arith, (omega arith, tt))))),
            ),
          ),
        ),
      )
      (λ e. ground arith)

-- The owner has the id 3; the second element has no user.
abbrev the_admins : Doc
the_admins = object (
    member (codes "ok") (number 1) (
      member (codes "result")
        (array (
          member (codes "0")
            (object (member (codes "user") (object (member (codes "id") (number 3) end)) end))
            (member (codes "1") (object end) end)))
        end))

parse_tga_admins-Answered_example : Answered tree the_admins (parse_tga_admins tree the_admins)
parse_tga_admins-Answered_example = parse_tga_admins-Answered tree the_admins
