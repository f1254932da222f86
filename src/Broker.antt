-- ===== src/Broker.antt =====
-- app/broker: the session broker.
pub mod State
pub mod Store
pub mod Core
mod Tests
