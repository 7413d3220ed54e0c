-- ===== src/Psv.antt =====
-- The PSV file system, mp3_Final/student-distrib/PSV_fs_lite: a super block with one bitmap for
-- each kind of node, folders and files found by path, and file contents in data blocks.
pub mod Types
pub mod Bitmap
pub mod Location
pub mod Counts
pub mod Volume
pub mod Path
pub mod Walk
pub mod Terms
pub mod Folders
pub mod Content
pub mod Read
pub mod Remove
