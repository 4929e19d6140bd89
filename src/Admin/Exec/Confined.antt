-- ===== src/Admin/Exec/Confined.antt =====
-- The commands act only in the chat of the message, on the member or the message that they are for.
use gnuweeb_bot.Base.{
  ℕ, ◌≡◌, ◌≢◌, refl, ◌⊎◌, inl, inr, Bool, true, false, not, Bool-cases, Option, List, [], ◌∷◌, ◌==◌,
  if◌then◌else◌, Bytes, codes, ok, All, ◌>>=◌, arith,
}
use gnuweeb_bot.Server.State.{Ret, success}
use gnuweeb_bot.Tg.Json.{JsonApi}
use gnuweeb_bot.Tg.Event.{
  Tgev, From, event, tge_get_from, tge_get_chat_id, tge_get_msg_id, tge_get_reply_to,
}
use gnuweeb_bot.Admin.{
  Cmd, nop, ban, sban, unban, kick, skick, warn, mute, tmute, unmute, pin, unpin, delete, report,
  delvote,
}
use gnuweeb_bot.Tga.Body.{PinMsg, UnpinMsg, DeleteMsg}
use gnuweeb_bot.Admin.Exec.{
  Note, unset, Call, kick_member, unban_member, restrict_member, pin_msg, unpin_msg, delete_msg,
  get_admins, send, Ran, Answer, errno, json, answered, send_reply, do_kick, do_unban, do_mute,
  do_pin, do_unpin, do_del_msg,
}
use gnuweeb_bot.Admin.Exec.Deeds.{Deed, banned, unbanned, kicked, muted, unmuted, deed_text}
use gnuweeb_bot.Admin.Exec.Commands.{
  reply_deed, delete_both, kick_or_unban, mute_or_unmute, replied_id, pin_at, unpin_at, delete_at,
  exec_adm_cmd_ban, exec_adm_cmd_unban, exec_adm_cmd_kick, exec_adm_cmd_mute, exec_adm_cmd_unmute,
  exec_adm_cmd_pin, exec_adm_cmd_unpin, exec_adm_cmd_delete,
}
use gnuweeb_bot.Admin.Exec.Report.{exec_cmd}

-- What a command in the message `evt`, a reply to `r`, may ask of the API.
abbrev pub Confined : Tgev → Tgev → ℕ → Call → Type 0
Confined evt r target (kick_member a) = (a.chat_id ≡ tge_get_chat_id evt) × (a.user_id ≡ target)
Confined evt r target (unban_member a) = (a.chat_id ≡ tge_get_chat_id evt) × (a.user_id ≡ target)
Confined evt r target (restrict_member a) = (a.chat_id ≡ tge_get_chat_id evt) × (a.user_id ≡ target)
Confined evt r target (pin_msg a) =
    (a.chat_id ≡ tge_get_chat_id evt) × (a.message_id ≡ tge_get_msg_id r)
Confined evt r target (unpin_msg a) =
    (a.chat_id ≡ tge_get_chat_id evt) × (a.message_id ≡ tge_get_msg_id r)
Confined evt r target (delete_msg a) =
    (a.chat_id ≡ tge_get_chat_id evt)
    × ((a.message_id ≡ tge_get_msg_id evt) ⊎ (a.message_id ≡ tge_get_msg_id r))
Confined evt r target (get_admins chat) = chat ≡ tge_get_chat_id evt
Confined evt r target (send chat id note) = (chat ≡ tge_get_chat_id evt) × (id ≡ tge_get_msg_id evt)

-- The command returns, and all its calls are such.
abbrev pub Kept : Tgev → Tgev → ℕ → Ran → Type 0
Kept evt r target m =
    (calls : List Call) × (ret : Ret) × (m ≡ ok (calls, ret)) × All (Confined evt r target) calls

-- The text about a deed to the user `fr` fits the buffer.
abbrev pub Formatted : Deed → From → Option Bytes → Type 0
Formatted deed fr reason = (text : Bytes) × (deed_text deed fr reason ≡ ok text)

-- The text that a command replies with where it succeeds fits its buffer.
abbrev pub Replies : Cmd → From → Option Bytes → Type 0
Replies ban fr reason = Formatted banned fr reason
Replies unban fr reason = Formatted unbanned fr reason
Replies kick fr reason = Formatted kicked fr reason
Replies mute fr reason = Formatted muted fr reason
Replies unmute fr reason = Formatted unmuted fr reason
Replies cmd fr reason = Unit

module _ (api : JsonApi) (ask : List Call → Answer api) (evt r : Tgev) (target : ℕ)
    (replied : tge_get_reply_to evt ≡ event r) where
  -- The calls so far.
  abbrev Fine : List Call → Type 0
  Fine calls = All (Confined evt r target) calls

  branch-Kept :
      (b : Bool) (x y : Ran)
      → Kept evt r target x
      → Kept evt r target y
      → Kept evt r target (if b then x else y)
  branch-Kept true x y hx hy = hx
  branch-Kept false x y hx hy = hy

  answered-Fine :
      (calls : List Call) (name : Bytes) (note : Note) (a : Answer api)
      → Fine calls
      → Fine (answered api calls name note a).0
  unfolding answered
  answered-Fine calls name note (errno e) h = h
  answered-Fine calls name note (json j) h = h

  do_del_msg-Fine :
      (calls : List Call) (note : Note) (arg : DeleteMsg)
      → Fine (delete_msg arg ∷ calls)
      → Fine (do_del_msg api ask calls note arg).0
  unfolding do_del_msg
  do_del_msg-Fine calls note arg h =
      answered-Fine (delete_msg arg ∷ calls) _ note (ask (delete_msg arg ∷ calls)) h

  reply-Kept :
      (calls : List Call) (note : Note)
      → Fine calls
      → Kept evt r target (send_reply evt calls note (tge_get_msg_id evt))
  unfolding send_reply
  reply-Kept calls note h = (_, success, refl, ((refl, refl), h))

  reply_deed-Kept :
      (calls : List Call) (note : Note) (deed : Deed) (reason : Option Bytes)
      → Formatted deed (tge_get_from r) reason
      → Fine calls
      → Kept evt r target (reply_deed api ask evt calls note deed reason)
  unfolding reply_deed
  reply_deed-Kept calls note deed reason (text, made) h =
      rw (reply_deed, replied, made) (reply-Kept calls _ h)

  either-Kept :
      (silent : Bool) (x y : Ran)
      → (silent ≡ true → Kept evt r target x)
      → (silent ≡ false → Kept evt r target y)
      → Kept evt r target (if silent then x else y)
  either-Kept true x y hx hy = hx refl
  either-Kept false x y hx hy = hy refl

  delete_both-Kept :
      (calls : List Call) (note : Note)
      → Fine calls
      → Kept evt r target (delete_both api ask evt calls note)
  unfolding delete_both
  delete_both-Kept calls note h =
      let first : DeleteMsg = record {
        chat_id = tge_get_chat_id evt;
        message_id = tge_get_msg_id evt;
      } in
      let second : DeleteMsg = record {
        chat_id = tge_get_chat_id evt;
        message_id = tge_get_msg_id r;
      } in
      let t = do_del_msg api ask calls note first in
      let t' = do_del_msg api ask t.0 t.2 second in
      let fine : Fine t.0 = do_del_msg-Fine calls note first ((refl, inl refl), h) in
      let fine' : Fine t'.0 = do_del_msg-Fine t.0 t.2 second ((refl, inr refl), fine) in
      rw (delete_both, replied)
        (branch-Kept (not t.1) _ _ (reply-Kept t.0 t.2 fine)
          (branch-Kept t'.1 _ _ (t'.0, success, refl, fine') (reply-Kept t'.0 t'.2 fine')))

  exec_adm_cmd_ban-Kept :
      (reason : Option Bytes) (silent : Bool)
      → (silent ≡ false → Formatted banned (tge_get_from r) reason)
      → Kept evt r target (exec_adm_cmd_ban api ask evt target reason silent)
  unfolding exec_adm_cmd_ban do_kick
  exec_adm_cmd_ban-Kept reason silent made =
      let fine =
        answered-Fine (kick_member _ ∷ []) _ unset (ask (kick_member _ ∷ [])) ((refl, refl), tt) in
      branch-Kept _ _ _ (reply-Kept _ _ fine) (
        either-Kept silent _ _ (λ _. delete_both-Kept _ _ fine)
          (λ loud. reply_deed-Kept _ _ banned reason (made loud) fine))

  kick_or_unban-Kept :
      (reason : Option Bytes) (is_unban silent : Bool)
      → (silent ≡ false → Formatted (if is_unban then unbanned else kicked) (tge_get_from r) reason)
      → Kept evt r target (kick_or_unban api ask evt target reason is_unban silent)
  unfolding kick_or_unban do_unban
  kick_or_unban-Kept reason is_unban silent made =
      let fine =
        answered-Fine (unban_member _ ∷ []) _ unset (ask (unban_member _ ∷ []))
          ((refl, refl), tt) in
      branch-Kept _ _ _ (reply-Kept _ _ fine) (
        either-Kept silent _ _ (λ _. (_, success, refl, fine))
          (λ loud.
            reply_deed-Kept _ _ (if is_unban then unbanned else kicked) reason (made loud) fine))

  mute_or_unmute-Kept :
      (reason : Option Bytes) (is_unmute : Bool)
      → Formatted (if is_unmute then unmuted else muted) (tge_get_from r) reason
      → Kept evt r target (mute_or_unmute api ask evt target reason is_unmute)
  unfolding mute_or_unmute do_mute
  mute_or_unmute-Kept reason is_unmute made =
      let fine =
        answered-Fine (restrict_member _ ∷ []) _ unset (ask (restrict_member _ ∷ []))
          ((refl, refl), tt) in
      branch-Kept _ _ _ (reply-Kept _ _ fine)
        (reply_deed-Kept _ _ (if is_unmute then unmuted else muted) reason made fine)

  exec_adm_cmd_kick-Kept :
      (reason : Option Bytes) (silent : Bool)
      → (silent ≡ false → Formatted kicked (tge_get_from r) reason)
      → Kept evt r target (exec_adm_cmd_kick api ask evt target reason silent)
  unfolding exec_adm_cmd_kick
  exec_adm_cmd_kick-Kept reason silent made =
      let (calls, ret, run, fine) = kick_or_unban-Kept reason false silent made in
      rw run (
        branch-Kept _ _ _ (calls, ret, refl, fine)
          (branch-Kept silent _ _ (delete_both-Kept calls unset fine) (calls, ret, refl, fine)))

  at_reply :
      (k : ℕ → Ran)
      → Kept evt r target (k (tge_get_msg_id r))
      → Kept evt r target (replied_id api ask evt >>= k)
  unfolding replied_id
  at_reply k h = rw (replied_id, replied) h

  pin_at-Kept : Kept evt r target (pin_at api ask evt (tge_get_msg_id r))
  unfolding pin_at do_pin
  pin_at-Kept =
      let arg : PinMsg = record {
        chat_id = tge_get_chat_id evt;
        message_id = tge_get_msg_id r;
        disable_notification = false;
      } in
      let t = do_pin api ask [] unset arg in
      let fine : Fine t.0 =
        answered-Fine (pin_msg arg ∷ []) (codes "tga_pin_chat_msg") unset (ask (pin_msg arg ∷ []))
          ((refl, refl), tt) in
      elim (Bool-cases (tge_get_msg_id r == 0)) [
        | inl none_replied ↦ rw (pin_at, none_replied) (reply-Kept [] _ tt)
        | inr some_replied ↦
            rw (pin_at, some_replied)
              (branch-Kept t.1 _ _ (reply-Kept t.0 _ fine) (reply-Kept t.0 t.2 fine))
      ]

  unpin_at-Kept : Kept evt r target (unpin_at api ask evt (tge_get_msg_id r))
  unfolding unpin_at do_unpin
  unpin_at-Kept =
      let arg : UnpinMsg = record {
        chat_id = tge_get_chat_id evt;
        message_id = tge_get_msg_id r;
      } in
      let t = do_unpin api ask [] unset arg in
      let fine : Fine t.0 =
        answered-Fine (unpin_msg arg ∷ []) (codes "tga_unpin_chat_msg") unset
          (ask (unpin_msg arg ∷ [])) ((refl, refl), tt) in
      elim (Bool-cases (tge_get_msg_id r == 0)) [
        | inl none_replied ↦ rw (unpin_at, none_replied) (reply-Kept [] _ tt)
        | inr some_replied ↦
            rw (unpin_at, some_replied)
              (branch-Kept t.1 _ _ (reply-Kept t.0 _ fine) (reply-Kept t.0 t.2 fine))
      ]

  delete_at-Kept : Kept evt r target (delete_at api ask evt (tge_get_msg_id r))
  unfolding delete_at
  delete_at-Kept =
      let first : DeleteMsg = record {
        chat_id = tge_get_chat_id evt;
        message_id = tge_get_msg_id r;
      } in
      let second : DeleteMsg = record {
        chat_id = tge_get_chat_id evt;
        message_id = tge_get_msg_id evt;
      } in
      let t = do_del_msg api ask [] unset first in
      let fine : Fine t.0 = do_del_msg-Fine [] unset first ((refl, inr refl), tt) in
      let t' = do_del_msg api ask t.0 t.2 second in
      let fine' : Fine t'.0 = do_del_msg-Fine t.0 t.2 second ((refl, inl refl), fine) in
      elim (Bool-cases (tge_get_msg_id r == 0)) [
        | inl none_replied ↦ rw (delete_at, none_replied) (reply-Kept [] _ tt)
        | inr some_replied ↦
            rw (delete_at, some_replied)
              (branch-Kept (not t.1) _ _ (reply-Kept t.0 t.2 fine)
                (branch-Kept t'.1 _ _ (reply-Kept t'.0 _ fine') (reply-Kept t'.0 t'.2 fine')))
      ]

  -- In reply to a message, each command but `report` whose reply about a deed fits its buffer returns,
  -- whatever the API answers. It calls the API only for the chat of its message; it bans, restricts or
  -- unbans only the member it is for, pins only the message replied to, deletes only that one and its
  -- own, and replies only to its own.
  pub exec_cmd-Kept :
      (cmd : Cmd) (reason : Option Bytes)
      → cmd ≢ nop
      → cmd ≢ report
      → Replies cmd (tge_get_from r) reason
      → Kept evt r target (exec_cmd api ask evt cmd target reason)
  unfolding exec_cmd exec_adm_cmd_unban exec_adm_cmd_mute exec_adm_cmd_unmute exec_adm_cmd_pin
      exec_adm_cmd_unpin exec_adm_cmd_delete
  exec_cmd-Kept nop reason hn hr made = absurd (hn refl)
  exec_cmd-Kept ban reason hn hr made = exec_adm_cmd_ban-Kept reason false (λ _. made)
  exec_cmd-Kept sban reason hn hr made = exec_adm_cmd_ban-Kept reason true (λ e. ground arith)
  exec_cmd-Kept unban reason hn hr made = kick_or_unban-Kept reason true false (λ _. made)
  exec_cmd-Kept kick reason hn hr made = exec_adm_cmd_kick-Kept reason false (λ _. made)
  exec_cmd-Kept skick reason hn hr made = exec_adm_cmd_kick-Kept reason true (λ e. ground arith)
  exec_cmd-Kept warn reason hn hr made = ([], _, refl, tt)
  exec_cmd-Kept mute reason hn hr made = mute_or_unmute-Kept reason false made
  exec_cmd-Kept tmute reason hn hr made = ([], _, refl, tt)
  exec_cmd-Kept unmute reason hn hr made = mute_or_unmute-Kept reason true made
  exec_cmd-Kept pin reason hn hr made = at_reply (pin_at api ask evt) pin_at-Kept
  exec_cmd-Kept delete reason hn hr made = at_reply (delete_at api ask evt) delete_at-Kept
  exec_cmd-Kept unpin reason hn hr made = at_reply (unpin_at api ask evt) unpin_at-Kept
  exec_cmd-Kept report reason hn hr made = absurd (hr refl)
  exec_cmd-Kept delvote reason hn hr made = ([], _, refl, tt)
