-- ===== src/Param.antt =====
-- Filter parameters: src/evf_param.c and its headers.
pub mod Defs
pub mod Parse
pub mod Load
pub mod Total
pub mod Typed
pub mod Ints
pub mod Placed
pub mod RoundTrip
pub mod Printed
pub mod Told
