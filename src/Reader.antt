-- ===== src/Reader.antt =====
-- dfc_reader.c: selecting the application, authenticating and reading its files.
pub mod Model
pub mod Steps
pub mod Files
pub mod Blocks
pub mod Proved
pub mod Reports
pub mod Authentic
pub mod Card
pub mod Genuine
mod Tests
