-- ===== src/Blobs.antt =====
-- The color blob detector, detect_color_blobs.c.
pub mod Types
pub mod Stats
pub mod Forest
pub mod Total
pub mod Union
pub mod Runs
pub mod Rows
pub mod Store
pub mod Detect
pub mod Report
pub mod Draw
