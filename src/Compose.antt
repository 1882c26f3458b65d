-- ===== src/Compose.antt =====
-- pkg/libcompose/config: compose files become services. What is read from other files, and the
-- functions of other packages, are a record of parameters.
pub mod Service
pub mod Parse
pub mod Services
pub mod Merging
pub mod Extends
mod Examples
