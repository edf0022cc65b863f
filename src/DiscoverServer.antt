-- ===== src/DiscoverServer.antt =====
-- discover/discover-server.c: the connected clients, what they may do, and what they are told.
-- Sockets, lib/crypt and the device handler enter as arguments; what the server asks of the device
-- handler is a list of calls. A client is found by its file descriptor.
pub mod Notices
pub mod Clients
pub mod Requests
pub mod Permission
pub mod Passwords
pub mod Connection
