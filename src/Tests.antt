-- ===== src/Tests.antt =====
-- Runs of the model on a small file system, and the theorems at concrete inputs.
pub mod Configfs
pub mod Runs
pub mod Examples
pub mod Structures
pub mod Attributes
pub mod Removal
pub mod Functions
pub mod Tree
pub mod Accessors
pub mod Streams
pub mod Video
pub mod Schemes
