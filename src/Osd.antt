-- ===== src/Osd.antt =====
-- main/core/osd.c
pub mod Dirty
pub mod Draw
pub mod Corners
mod Tests
