-- ===== src/Text.antt =====
-- lib/string.c: the string helpers that build commands, requests and messages.
pub mod ShellArg
pub mod UrlEncode
pub mod Html
pub mod Decimal
pub mod Trim
mod Tests
