-- ===== src/Runtime.antt =====
-- app/runtime.py: the provider caches, and recovery.
pub mod Cache
pub mod Recovery
pub mod Storage
pub mod Health
