-- ===== src/Tests.antt =====
-- The theorems at concrete inputs.
mod Known
mod Values
mod Server
mod Orders
mod Arrivals
mod Received
mod Requests
mod Connections
mod Frames
mod Texts
mod Table
mod Timers
mod Streams
mod Rooms
mod Maps
