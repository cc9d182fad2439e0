-- ===== src/Config.antt =====
-- internal/config/config.go: the document and its validation.
pub mod Types
pub mod Document
pub mod Checked
pub mod Validate
