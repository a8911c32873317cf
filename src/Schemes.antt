-- ===== src/Schemes.antt =====
-- Import and export of gadgets: usbg_common_libconfig.c, the `.import` and `.export` of
-- src/function, and usbg_schemes_libconfig.c.
pub mod Nodes
pub mod Attrs
pub mod Ms
pub mod Uvc
pub mod Export
pub mod Import
pub mod Streams
pub mod Without
