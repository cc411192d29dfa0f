-- ===== src/Policy.antt =====
-- src/bot/policy.rs, and the title test of src/bot/title_fix.rs that it calls.
pub mod Pack
pub mod Forbidden
pub mod Caps
pub mod Titles
pub mod Enforced
pub mod Layers
