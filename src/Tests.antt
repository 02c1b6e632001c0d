-- ===== src/Tests.antt =====
-- Concrete runs of the program's parts.
mod Messages
mod Streams
mod Strings
mod Transfers
mod Nodes
mod Lists
mod Texts
mod Sessions
mod Tasks
mod Uploads
mod Downloads
mod Clients
