-- ===== src/Tests.antt =====
-- Instances of the parameters, and the theorems at concrete inputs.
mod Memory
mod MemoryLaws
mod Values
mod Encodings
mod Scans
mod Stores
mod Documents
mod Updates
mod Messages
mod Exports
mod Deletion
mod Requests
mod Clients
mod Files
mod Options
mod Running
mod Imports
mod Reading
mod Queries
mod Indexes
mod Shop
