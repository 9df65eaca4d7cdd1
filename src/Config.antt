-- ===== src/Config.antt =====
-- config.go: the configuration, its defaults and `CleanConfig`.
pub mod Types
pub mod Clean
