-- ===== src/Tests.antt =====
-- A database in memory that meets the laws, and the theorems at concrete inputs.
mod Calls
mod Checksum
mod Queueing
mod Retrying
mod Returning
mod Life
mod Tags
mod Tables
mod Coding
mod Keeping
mod Delivering
mod Sending
mod Serving
mod Sharing
mod Threads
mod Sockets
mod Messages
