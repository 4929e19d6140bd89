-- ===== src/Modules.antt =====
-- The modules of the bot other than the administration module (modules/000_debug, 001_standard and
-- 002_translate), and what they ask of the system.
pub mod Debug
pub mod Translate
pub mod Admin
mod Tests
use gnuweeb_bot.Base.{ℕ, zero, suc, List, Bytes, Outcome}
use gnuweeb_bot.Base.Int.{ℤ, pos, negsuc}
use gnuweeb_bot.Admin.{Effect}

-- `parse_mode` of a message that is sent.
pub data ParseMode : Type 0 where
  off html : ParseMode

-- What a module does: a call of `tga_send_msg` with the chat, the message replied to and the text, or
-- what the administration module does. What the call returns changes nothing.
pub data Act : Type 0 where
  send_msg : ParseMode → ℤ → ℕ → Bytes → Act
  admin : Effect → Act

-- The `int` that a module returns, and what it has done.
abbrev pub Done : Type 0
Done = Outcome (List Act × ℤ)

-- -e
abbrev pub minus : ℕ → ℤ
minus zero = pos 0
minus (suc e) = negsuc e

-- -ECANCELED
abbrev pub canceled : ℤ
canceled = negsuc 124
