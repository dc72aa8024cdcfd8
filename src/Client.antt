-- ===== src/Client.antt =====
-- client.py
pub mod Recv
pub mod Serialize
pub mod RoundTrip
pub mod Dispatch
