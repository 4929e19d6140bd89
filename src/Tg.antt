-- ===== src/Tg.antt =====
-- Telegram events: lib/tg_event.c and include/gwbot/lib/tg_event.h with the headers it includes.
pub mod Json
pub mod Fill
pub mod Event
pub mod Info
pub mod Message
pub mod Parse
pub mod Ids
pub mod Sample
mod Tests
