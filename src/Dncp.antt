-- ===== src/Dncp.antt =====
-- The distributed node consensus protocol (src/dncp*.c).
pub mod Trickle
pub mod Notify
pub mod Index
pub mod Graph
pub mod Publish
pub mod Proto
pub mod Timeout
