-- ===== src/Terminal.antt =====
-- app/service-terminal/service-terminal.gateway.ts: shells of services over web sockets. What runs
-- between two awaits is one function; a call of `handleStart` is kept in `calls` with its session,
-- since each call makes one session at most: there is one shell to try.
pub mod State
pub mod Start
pub mod Events
pub mod Valid
pub mod Steps
pub mod Owned
pub mod Solo
pub mod Alone
pub mod Coherent
pub mod Safe
pub mod Guard
mod Examples
