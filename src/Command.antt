-- ===== src/Command.antt =====
-- cmd/localhoist/main.go: what a run does to the project's `.env`, and in which order.
pub mod Patch
pub mod Session
pub mod Banner
pub mod Hints
pub mod Settings
pub mod Run
pub mod Main
pub mod Safe
mod Sample
mod Tests
