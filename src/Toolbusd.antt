-- ===== src/Toolbusd.antt =====
-- The host's daemon, toolbusd/.
pub mod NodeRegistry
pub mod RequestManager
pub mod TrafficControl
