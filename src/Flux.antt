-- ===== src/Flux.antt =====
-- The memory manager, continuum/flux_memory.c.
pub mod Pages
pub mod Buddy
pub mod Translate
pub mod Compress
pub mod Slab
mod Tests
