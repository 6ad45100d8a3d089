-- ===== src/System.antt =====
-- The whole program over one database. Every database transaction of a service is one step, so that
-- requests and outbox runs interleave in any order, each with what it has read some time before.
pub mod Steps
pub mod Changes
pub mod Runs
pub mod Polls
pub mod Requests
