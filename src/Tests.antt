-- ===== src/Tests.antt =====
-- Examples: each theorem applied at a concrete input, and runs of the code.
mod Data
mod Messages
mod Configurations
mod Booting
mod Resources
mod Events
mod Server
mod Clients
mod Parsing
mod Queue
mod Urls
mod Orders
mod Network
