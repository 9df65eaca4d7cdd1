-- ===== src/Model.antt =====
-- model.go: the stored records, identifiers, validation and access tokens.
pub mod Types
pub mod Ids
pub mod Validate
pub mod Tokens
