-- ===== src/Server.antt =====
-- core/server.c: the event loop of the bot, its channels and its threads.
pub mod State
pub mod Memory
pub mod Submit
pub mod Client
pub mod Framing
pub mod Delivery
pub mod Fragments
pub mod Handover
pub mod Slots
pub mod Accept
pub mod Setup
pub mod Loop
pub mod NewChans
pub mod Config
pub mod Started
pub mod Work
pub mod Threads
mod Tests
mod LoopTests
