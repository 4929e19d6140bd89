-- ===== src/Tga.antt =====
-- lib/tg_api.c and lib/tg_api/*.c: the requests to the Telegram API.
pub mod Response
pub mod Post
pub mod Form
pub mod Body
pub mod Calls
pub mod Admins
mod Tests
