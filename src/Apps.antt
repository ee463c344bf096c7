-- ===== src/Apps.antt =====
-- The target applications of target-apps/apps that the k6 scripts put under load.
pub mod Http
pub mod Auth
pub mod Crud
pub mod Ws
pub mod Latency
