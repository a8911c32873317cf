-- ===== src/Funcs.antt =====
-- src/function: the types of functions, behind `struct usbg_function_type`.
pub mod Ether
pub mod Guid
pub mod Scan
pub mod Values
pub mod Attrs
pub mod Tables
pub mod Simple
pub mod Types
pub mod Luns
pub mod Ms
pub mod Uvc
pub mod Accessors
pub mod Ops
