-- ===== src/Tests.antt =====
-- The theorems at concrete inputs, and runs of the model.
mod Demo
mod Frames
mod Sending
mod Services
mod Clients
mod Nodes
mod Buffers
mod Threads
mod Rounds
mod Starting
mod Systems
mod Sessions
mod Registrations
