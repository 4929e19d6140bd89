-- ===== src/Admin/Tests.antt =====
-- Runs of the administration module, and its theorems at concrete messages.
use gnuweeb_bot.Base.{
  none, ◌≡◌, refl, some, true, [], ◌∷◌, ℕ, arith, codes, Bytes, ok, map, All, zero, suc,
}
use gnuweeb_bot.Server.State.{success, fail, done}
use gnuweeb_bot.Admin.{
  run, report, ban, Message, AdminEnv, deny, entry, is_an_admin_mention, is_admin_cmd, sudoers,
  to_lower, is_ws,
}
use gnuweeb_bot.Admin.Gate.{Gated, Listed, entry-Gated}
use gnuweeb_bot.Admin.Parse.{IsWordByte, Tail, spaced}
use gnuweeb_bot.Admin.Runs.{Spells, spells_ban, command_denied}

-- A chat with the administrators 7 and 8, whose requests succeed.
abbrev chat : AdminEnv
chat = record { admins = done (7 ∷ 8 ∷ []); exec = λ _ _ _. ok success }

abbrev word : Bytes
word = codes "BaN"

-- `/BaN  spam`, in reply to a message of the user 42.
abbrev order : ℕ → Message
order u = record { text = some (codes "/BaN  spam"); user_id = u; reply_to = some 42 }

-- The vote cannot be reached: `/delvote` is read as `/del`, and what follows is no white space.
vote_ignored :
    entry chat (record { text = some (codes "/delvote"); user_id = 7; reply_to = some 42 })
    ≡ ok ([], fail 125)
unfolding entry
vote_ignored = refl

mention_found : is_an_admin_mention (codes "@AdMins look") ≡ true
unfolding is_an_admin_mention
mention_found = refl

entry-Gated_example : Gated chat 9 (entry chat (order 9))
entry-Gated_example = entry-Gated chat (order 9)

word_name : Spells (map to_lower word) ban
unfolding to_lower
word_name = spells_ban

word_bytes : All IsWordByte word
unfolding is_ws
word_bytes = ground arith

space : is_ws 32 ≡ true
unfolding is_ws
space = refl

ban_restricted : is_admin_cmd ban ≡ true
unfolding is_admin_cmd
ban_restricted = refl

stranger : ¬ Listed (7 ∷ 8 ∷ []) 9
stranger (zero, at) = ground arith
stranger (suc zero, at) = ground arith
stranger (suc (suc k), at) = ground arith

no_sudoer : ¬ Listed sudoers 9
no_sudoer (zero, at) = ground arith
no_sudoer (suc zero, at) = ground arith
no_sudoer (suc (suc zero), at) = ground arith
no_sudoer (suc (suc (suc zero)), at) = ground arith
no_sudoer (suc (suc (suc (suc k))), at) = ground arith

behind : Tail (codes "  spam")
behind = spaced 32 (codes " spam") space

bare_report :
    entry chat (record { text = some (codes "!Admin"); user_id = 9; reply_to = some 42 })
    ≡ ok (run report 42 none ∷ [], success)
unfolding entry
bare_report = refl

command_denied_example : entry chat (order 9) ≡ ok (deny ∷ [], success)
command_denied_example =
    command_denied chat 47 word (codes "  spam") ban 9 42 word_name word_bytes behind refl
      (7 ∷ 8 ∷ []) ban_restricted refl no_sudoer stranger
