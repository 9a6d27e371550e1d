-- ===== src/Rpc.antt =====
-- src/thrift: the code that thrift generates from im.thrfit for messages between the servers.
pub mod Wire
pub mod Concurrent
pub mod Message
pub mod Service
