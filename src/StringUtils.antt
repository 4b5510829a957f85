-- ===== src/StringUtils.antt =====
-- aptos-agent-framework/framework/src/natives/string_utils.rs: texts of Move values.
pub mod Layouts
pub mod Writing
pub mod Format
pub mod Natives
pub mod Template
pub mod Items
pub mod Escape
pub mod Nesting
pub mod Typing
mod Tests
