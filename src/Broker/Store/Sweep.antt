-- ===== src/Broker/Store/Sweep.antt =====
-- `startup_sweep` of app/broker/store.py.
pub mod Loops
pub mod Keys
pub mod Agreement
pub mod Effect
