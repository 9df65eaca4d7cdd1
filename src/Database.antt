-- ===== src/Database.antt =====
-- The database as the program uses it: gorm's calls as queries and statements over the tables of
-- model.go. What a call does when it succeeds is the meaning of its SQL, and which calls fail is
-- left to the parameter `Database`.
pub mod Tables
pub mod Laws
pub mod Rows
pub mod Keys
pub mod Memory
pub mod Migrate
