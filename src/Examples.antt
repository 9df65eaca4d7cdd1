-- ===== src/Examples.antt =====
-- Test data, tests, and the theorems at concrete inputs.
mod Setup
mod Strings
mod Auth
mod Textures
mod Session
mod Front
mod Config
mod Account
mod Skins
mod Update
mod Server
mod Pages
mod System
