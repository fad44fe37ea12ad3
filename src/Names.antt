-- ===== src/Names.antt =====
-- internal/api/displayname.go: the display name of a new account.
pub mod Draw
pub mod Finish
