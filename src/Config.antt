-- ===== src/Config.antt =====
-- Configuration files: src/evf_loader.c, src/evf_profile.c and `evf_read_line_preprocess` of
-- src/evf_func.c.
pub mod Stream
pub mod Load
pub mod Lines
pub mod Sections
pub mod Printed
pub mod Total
pub mod Ends
pub mod Profile
pub mod Rules
pub mod Blocks
