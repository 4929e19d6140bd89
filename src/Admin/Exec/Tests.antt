-- ===== src/Admin/Exec/Tests.antt =====
-- Runs of the commands of the administration module, and their theorems at a concrete message.
use gnuweeb_bot.Base.{
  ◌≡◌, ◌⊎◌, refl, true, none, some, List, [], ◌∷◌, ◌++◌, codes, arith, ok, crash, out_of_bounds,
  replicate, Bytes,
}
use gnuweeb_bot.Server.State.{success, done}
use gnuweeb_bot.Tg.Sample.{number, str, object, array, end, member, tree, ban_event, hello_event}
use gnuweeb_bot.Tg.Event.{event, tge_get_reply_to, tge_get_from}
use gnuweeb_bot.Admin.Gate.{Listed}
use gnuweeb_bot.Admin.Privilege.{answered_ids, Named, is_privileged_user-Named}
use gnuweeb_bot.Admin.{AdminEnv, sudoers, is_privileged_user, skick, ban}
use gnuweeb_bot.Admin.Exec.Deeds.{Deed, banned, muted, word_of, deed_text}
use gnuweeb_bot.Admin.Exec.{Call, Answer, json, described, reported}
use gnuweeb_bot.Tga.Admins.{ChatMember, zero_member, found, parse_tga_admins, read_ids}
use gnuweeb_bot.Admin.Exec.Report.{exec_cmd, construct_report_reply}
use gnuweeb_bot.Admin.Exec.Confined.{Kept, exec_cmd-Kept}
use gnuweeb_bot.Admin.Exec.Replies.{Refused, Declined, the_kick, deletes, says, commands-Declined}

-- An API that carries out every call, and one that refuses every call.
abbrev fulfils : List Call → Answer tree
fulfils calls = json (some (object (member (codes "ok") (number 1) end)))

abbrev refuses : List Call → Answer tree
refuses calls = json (
    some (
      object (
        member (codes "ok") (number 0)
          (member (codes "description") (str (codes "Bad Request")) end))))

abbrev once : List Call → Answer tree
once [] = fulfils []
once (call ∷ []) = refuses []
once (call ∷ calls) = fulfils []

replied : tge_get_reply_to ban_event ≡ event hello_event
unfolding tge_get_reply_to
replied = refl

-- The reply about a deed to the user of the sample.
abbrev told : Deed → Bytes
told deed = codes "<a href=\"tg://user?id=7\">Ada</a> has been " ++ word_of deed

told_banned : deed_text banned (tge_get_from hello_event) none ≡ ok (told banned)
unfolding deed_text tge_get_from
told_banned = refl

told_reason :
    deed_text muted (tge_get_from hello_event) (some (codes "a<b"))
    ≡ ok (told muted ++ codes "\n<b>Message:</b> a&lt;b")
unfolding deed_text tge_get_from
told_reason = refl

-- After the first name `sps` has grown by its length, and a long last name is written outside.
long_last_name :
    deed_text banned
      (record (tge_get_from hello_event) {
        first_name = some (replicate 30 b'<');
        last_name = some (replicate 1000 b'a');
      })
      none
    ≡ crash out_of_bounds
unfolding deed_text tge_get_from
long_last_name = refl

exec_cmd-Kept_example : Kept ban_event hello_event 7 (exec_cmd tree refuses ban_event ban 7 none)
exec_cmd-Kept_example =
    exec_cmd-Kept tree refuses ban_event hello_event 7 replied ban none (λ e. ground arith)
      (λ e. ground arith) (told banned, told_banned)

refuses-Refused : (calls : List Call) → Refused tree (refuses calls) (codes "Bad Request")
unfolding found
refuses-Refused calls = record {
  obj = object (
      member (codes "ok") (number 0)
        (member (codes "description") (str (codes "Bad Request")) end));
  is = refl;
  flag = number 0;
  flag_at = refl;
  fails = refl;
  text = str (codes "Bad Request");
  text_at = refl;
  reason = refl;
}

commands-Declined_example :
    Declined tree refuses ban_event hello_event 7 none replied (codes "Bad Request")
commands-Declined_example =
    commands-Declined tree refuses ban_event hello_event 7 none replied (codes "Bad Request")
      refuses-Refused

-- The kick is refused, which is sent to the chat, and the two messages are deleted all the same.
silent_kick_refused :
    exec_cmd tree once ban_event skick 7 none
    ≡ ok (
      deletes tree once ban_event hello_event 7 none replied hello_event
          ∷ deletes tree once ban_event hello_event 7 none replied ban_event
          ∷ says tree once ban_event hello_event 7 none replied (described (codes "Bad Request"))
          ∷ the_kick tree once ban_event hello_event 7 none replied
          ∷ [],
      success,
    )
unfolding exec_cmd
silent_kick_refused = refl

-- The user 3 is named, the second element has no user.
abbrev the_admins : Answer tree
the_admins = json (
    some (
      object (
        member (codes "ok") (number 1) (
          member (codes "result")
            (array (
              member (codes "0")
                (object (member (codes "user") (object (member (codes "id") (number 3) end)) end))
                (member (codes "1") (object end) end)))
            end))))

abbrev the_env : AdminEnv
the_env = record { admins = done (3 ∷ 0 ∷ []); exec = λ cmd target reason. ok success }

the_ids : answered_ids tree the_admins ≡ ok the_env.admins
unfolding answered_ids parse_tga_admins read_ids
the_ids = refl

the_user_passes : (is_privileged_user the_env 3).1 ≡ true
unfolding is_privileged_user
the_user_passes = refl

is_privileged_user-Named_example : Listed sudoers 3 ⊎ Named tree the_admins 3
is_privileged_user-Named_example =
    is_privileged_user-Named tree the_admins the_env 3 the_ids (λ e. ground arith) the_user_passes

admin_named : Bytes → ChatMember
admin_named fn = record zero_member {
  user = record zero_member.user { id = 3; first_name = some fn };
}

report_text :
    construct_report_reply (admin_named (codes "Ann") ∷ zero_member ∷ []) 1
    ≡ ok (reported (codes "Reported to admins!\nCc: <a href=\"tg://user?id=3\">Ann</a>\n"))
unfolding construct_report_reply admin_named
report_text = refl

-- The entry of zeros that is counted for an element without a user has no name.
report_of_zeros :
    construct_report_reply (admin_named (codes "Ann") ∷ zero_member ∷ []) 2 ≡ crash out_of_bounds
unfolding construct_report_reply admin_named
report_of_zeros = refl

-- Forty-five administrators with long names do not fit the buffer.
report_overflow :
    construct_report_reply (replicate 45 (admin_named (replicate 64 b'a'))) 45 ≡ crash out_of_bounds
unfolding construct_report_reply admin_named
report_overflow = refl
