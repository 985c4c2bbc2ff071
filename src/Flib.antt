-- ===== src/Flib.antt =====
-- The file library: Server/FLIB. It reads block files into a cache that the sessions share, and
-- hands out their RTP packets one by one.
pub mod Names
pub mod Retrieve
pub mod Cache
pub mod Interface
pub mod Config
pub mod Sample
mod Tests
