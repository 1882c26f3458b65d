-- ===== src/Config.antt =====
-- The configuration tree: its values, copying and merging (pkg/util/util.go), splitting off a key
-- (config/data_funcs.go), and the settings of the kernel command line (config/cmdline/cmdline.go).
pub mod Value
pub mod Merge
pub mod FilterKey
pub mod Disk
mod Examples
