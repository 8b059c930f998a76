-- ===== src/Gateway.antt =====
-- controllers/gateway: how the controller reads Gateway API objects and reports on them.
pub mod Conditions
pub mod RefKey
pub mod Grants
pub mod Hostname
pub mod Translate
