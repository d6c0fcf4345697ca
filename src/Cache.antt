-- ===== src/Cache.antt =====
-- The multi-tier cache, src/infrastructure/cache/cache_manager.py, one module to a class.
pub mod L1
pub mod Store
pub mod Strategy
pub mod Manager
