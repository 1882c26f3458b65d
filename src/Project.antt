-- ===== src/Project.antt =====
-- pkg/libcompose/project: the order in which a project starts its services.
pub mod Start
pub mod Wrapper
pub mod Rounds
