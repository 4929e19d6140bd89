-- ===== src/Admin/Exec/Report.antt =====
-- The command `report` and the `switch` over the commands at the end of the entry
-- (modules/003_admin/admin.c).
use gnuweeb_bot.Base.{
  ◌+◌, ◌-◌, ◌++◌, length, replicate, strnlen, c_text, ℕ, true, false, Option, none, some, List, [],
  ◌∷◌, take, Bytes, codes, Outcome, ok, crash, out_of_bounds, aborted, ◌>>=◌,
}
use gnuweeb_bot.Server.State.{fail, Sys, done, failed, einval}
use gnuweeb_bot.Tg.Json.{JsonApi}
use gnuweeb_bot.Tg.Event.{
  Tgev, Pointer, nothing, wild, event, tge_get_chat_id, tge_get_msg_id, tge_get_reply_to,
}
use gnuweeb_bot.Tga.Admins.{ChatMember, parse_tga_admins}
use gnuweeb_bot.Admin.{
  Cmd, nop, ban, sban, unban, kick, skick, warn, mute, tmute, unmute, pin, unpin, delete, report,
  delvote, ecanceled,
}
use gnuweeb_bot.Admin.Exec.{
  Note, call_failed, reported, Call, get_admins, Ran, Answer, errno, json, send_reply,
}
use gnuweeb_bot.Admin.Exec.Deeds.{minus_size, put, put_print, put_html, link_head}
use gnuweeb_bot.Admin.Exec.Commands.{
  exec_adm_cmd_ban, exec_adm_cmd_unban, exec_adm_cmd_kick, exec_adm_cmd_mute, exec_adm_cmd_unmute,
  exec_adm_cmd_pin, exec_adm_cmd_unpin, exec_adm_cmd_delete,
}

-- A round of the loop for an administrator who is no bot: the buffer, `rep_p` as an offset, and `sps`;
-- a name that is NULL is read.
unfoldable pub put_admin : Bytes → ℕ → ℕ → ℕ → Option Bytes → Outcome (Bytes × ℕ × ℕ)
unfolding put put_print put_html link_head
put_admin buf at sps id none = crash out_of_bounds
put_admin buf at sps id (some fn) =
    let head = codes "Cc: " ++ link_head id in
    let sps₁ = minus_size sps 6 in
    let sps₂ = minus_size sps₁ (length head) in
    (do
      buf₁ ← put_print buf at sps₁ head
      (buf₂, tmp) ← put_html buf₁ (at + length head) sps₂ fn (strnlen fn 0xfff)
      buf₃ ← put buf₂ (at + length head + (tmp - 1)) (codes "</a>\n" ++ 0 ∷ [])
      ok (buf₃, at + length head + (tmp - 1) + 5, minus_size sps₂ (tmp - 1)))

unfoldable pub put_admins : Bytes → ℕ → ℕ → List ChatMember → Outcome Bytes
unfolding put_admin
put_admins buf at sps [] = ok buf
put_admins buf at sps (m ∷ admins) = elim m.user.is_bot [
  | true ↦ put_admins buf at sps admins
  | false ↦ put_admin buf at sps m.user.id m.user.first_name >>= λ r. put_admins r.0 r.1 r.2 admins
]

-- The buffer of 4096 bytes begins with zeros here, as what it held before stands behind the text only.
unfoldable pub construct_report_reply : List ChatMember → ℕ → Outcome Note
unfolding put put_admins
construct_report_reply admins n = do
  let title = codes "Reported to admins!\n"
  buf ← put (replicate 4096 0) 0 (title ++ 0 ∷ [])
  text ← put_admins buf (length title) (4096 - length title) (take n admins)
  ok (reported (c_text text))

-- What is replied to a list of administrators, or to the error of its parser.
abbrev pub admins_note : Sys (List ChatMember × ℕ) → Outcome Note
admins_note (done (admins, n)) = construct_report_reply admins n
admins_note (failed e) = ok (call_failed (codes "parse_tga_admins") e)

module _ (api : JsonApi) where
  unfoldable pub report_note : Answer api → Outcome Note
  unfolding construct_report_reply parse_tga_admins
  report_note (errno e) = ok (call_failed (codes "tga_get_chat_admins") e)
  report_note (json none) = ok (call_failed (codes "json_tokener_parse") einval)
  report_note (json (some j)) = parse_tga_admins api j >>= admins_note

  -- `if (reply_to) evt = reply_to`
  abbrev pub answer_to : Tgev → Pointer → Outcome Tgev
  answer_to evt nothing = ok evt
  answer_to evt wild = crash out_of_bounds
  answer_to evt (event r) = ok r

  module _ (ask : List Call → Answer api) (evt : Tgev) where
    unfoldable pub exec_usr_cmd_report : Ran
    unfolding report_note send_reply tge_get_reply_to tge_get_chat_id tge_get_msg_id
    exec_usr_cmd_report = do
      let calls = get_admins (tge_get_chat_id evt) ∷ []
      note ← report_note (ask calls)
      to ← answer_to evt (tge_get_reply_to evt)
      send_reply to calls note (tge_get_msg_id to)

    abbrev pub canceled : Ran
    canceled = ok ([], fail ecanceled)

    unfoldable pub exec_cmd : Cmd → ℕ → Option Bytes → Ran
    unfolding exec_adm_cmd_ban exec_adm_cmd_unban exec_adm_cmd_kick exec_adm_cmd_mute
        exec_adm_cmd_unmute exec_adm_cmd_pin exec_adm_cmd_unpin exec_adm_cmd_delete
        exec_usr_cmd_report
    exec_cmd nop target reason = crash aborted
    exec_cmd ban target reason = exec_adm_cmd_ban api ask evt target reason false
    exec_cmd sban target reason = exec_adm_cmd_ban api ask evt target reason true
    exec_cmd unban target reason = exec_adm_cmd_unban api ask evt target reason
    exec_cmd kick target reason = exec_adm_cmd_kick api ask evt target reason false
    exec_cmd skick target reason = exec_adm_cmd_kick api ask evt target reason true
    exec_cmd warn target reason = canceled
    exec_cmd mute target reason = exec_adm_cmd_mute api ask evt target reason
    exec_cmd tmute target reason = canceled
    exec_cmd unmute target reason = exec_adm_cmd_unmute api ask evt target reason
    exec_cmd pin target reason = exec_adm_cmd_pin api ask evt
    exec_cmd delete target reason = exec_adm_cmd_delete api ask evt
    exec_cmd unpin target reason = exec_adm_cmd_unpin api ask evt
    exec_cmd report target reason = exec_usr_cmd_report
    exec_cmd delvote target reason = canceled
