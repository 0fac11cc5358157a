-- ===== src/Fs.antt =====
-- The file system (fs/).
pub mod Pipe
pub mod Descriptors
pub mod Names
pub mod Directory
pub mod Dcache
pub mod Permission
pub mod Namei
pub mod Bitmap
pub mod Inodes
pub mod Files
pub mod Buffers
pub mod Calls
