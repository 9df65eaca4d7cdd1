-- ===== src/Front.antt =====
-- front.go: the web front end.
pub mod Types
pub mod Access
pub mod Challenge
pub mod NewUser
pub mod Quiet
pub mod Gives
pub mod Register
pub mod Login
pub mod Admin
pub mod Pages
pub mod Fields
pub mod Update
