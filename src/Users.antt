-- ===== src/Users.antt =====
-- src/users.c: the users of the server.
pub mod Connections
pub mod Sessions
pub mod Ties
