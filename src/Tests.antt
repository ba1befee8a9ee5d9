-- ===== src/Tests.antt =====
-- Runs of the theorems on concrete inputs, with a small operating system of their own.
pub mod Meshes
pub mod Audiences
pub mod Comparisons
pub mod Queries
pub mod Broadcast
pub mod Samples
pub mod Addresses
pub mod Sockets
pub mod Closed
pub mod Exchanges
pub mod Texts
pub mod Feeds
pub mod Servers
pub mod Office
pub mod Programs
pub mod Screens
pub mod Dialogues
