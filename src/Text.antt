-- ===== src/Text.antt =====
-- src/core/text_utils.c: a module for each family of functions.
pub mod Number
pub mod Hex
pub mod Split
pub mod Path
