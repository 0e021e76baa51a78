-- ===== src/Pa.antt =====
-- The prefix assignment algorithm (src/pa_core.c, src/pa_core.h).
pub mod Prefix
pub mod State
pub mod Ldp
pub mod Rules
pub mod Filters
pub mod Fixture
pub mod Routine
pub mod UserRules
pub mod Store
pub mod Events
pub mod System
