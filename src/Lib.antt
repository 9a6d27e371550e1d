-- ===== src/Lib.antt =====
-- ShortMessage is the server of a short message service over satellites. Access servers pass the
-- requests of mobile users to it over thrift; it keeps users' satellite cover and messages in MySQL,
-- and sends receipts and messages through the access server of the receiver's best beam.
--
-- The parts and their files:
-- - Machine, Memory: what C++ code can do besides return (an access out of bounds, an abort, a loop
--   without end), the bytes of a little-endian machine, and C strings.
-- - Protocol: the structs of src/logic/protocol.h and the casts from a request's bytes. Client: the
--   other end, from test/LogicClient and test/LogicServer; Client.Access is what the latter prints.
-- - Coder: src/logic/coder.cpp, `response_encode` and `receipt_encode` for ResponseEncode,
--   `message_encode` and `item_encode` for MessageEncode.
-- - Float: the bits of a `float`, the comparison and the casts that the code uses.
-- - Database: the class of src/tools/database.cpp, one definition per method, on an abstract SQL server
--   (Database.Sql), whose documented behaviour is the record IsMySql (Database.Laws).
-- - World: the state of a handler (database, connection pool, clock, calls of access servers) and the
--   actions on it.
-- - Send: src/workmanager/send_helper.cpp; Send.Table is its table as the std::map that it is, a quotient
--   of the list of its entries. Mobile: src/logic/mobile_manager.cpp. Message:
--   src/logic/message_manager.cpp. Qos: src/tools/qos_send_daemon.cpp. Handler: the dispatch of
--   src/workmanager/LogicInterfaceHandler.cpp. Each method is the definition of its name in snake
--   case. Handler.Served puts Rpc and Handler together, and Handler.Relayed puts both between the two
--   ends of Client.
-- - Database.Setup: Database::Init. Controller: src/workmanager/controller.cpp and the `main` of
--   src/main.cpp. Controller.Threads: the threads of `main` as a step relation on one controller and one
--   world, where thrift's server binds its port in `serve`, and a `stop` before that has no effect;
--   Controller.Threads.Runs leads their runs back to those of System, and
--   Controller.Threads.Keeping says what they leave in the database.
-- - Rpc: the code of src/thrift. Rpc.Message is AccessMessage of im_types (Rpc.Message.Values its
--   comparison, copies and text), Rpc.Service the arguments, the client and the processor of
--   LogicInterface. Rpc.Service.Interfaces has its other interfaces and its factories, and
--   Rpc.Concurrent its concurrent client, which no program of the repository uses: Rpc.Concurrent.System
--   the threads that share one as a step relation, Rpc.Concurrent.Served the processor behind them.
--   Thrift's TProtocol is the record of Rpc.Wire, with what it documents as the records IsRoundTrip and
--   IsConsuming, and its TConcurrentClientSyncInfo the record SyncInfo, with IsSync.
-- - Fifo: the ring of packets of src/commons/fifo_queue.cpp, which no other part uses. Fifo.Queue is a
--   client's sequence of calls, and the queue of packets that it means to use; Fifo.Contents says where
--   the packets of a queue stand in the ring.
-- - Logger: src/tools/logger.cpp. Utils: src/commons/utils.cpp and the template of utils.h.
-- - Crc: the checksum of src/commons/CRC_16.cpp, which no other part uses. Crc.Division is the division
--   by the polynomial, one bit at a time.
-- - Socket: src/commons/comm_socket.cpp and src/commons/udp_socket.cpp as built for Linux, which no
--   other part uses; the system calls are the record Os, and what fcntl documents is IsFcntl.
-- - Handler.Invariants: what every request keeps, by the rules of World.Stable; Handler.Kept and
--   Handler.Stored are two cases of it, for the cache and for the store, and Handler.Connections counts
--   connections, by the rules of World.Connections. System: runs of the server, made of calls of the
--   handler, rounds of the QoS daemon, and what happens between them.
-- A request goes from Handler to Mobile or Message, which use Database through the actions of World,
-- encode with Coder, and send with Send; Qos sends cached messages again.
--
-- Loops are structural recursion, on a count that the code reads or on a list; the loop of
-- GetConnection is recursion on the pool's answers, and a list that ends without a connection is a
-- loop that does not end. The only fuel is that of `Float.log2`: 32 halvings of a number below 2 ^ 32;
-- and that of `Rpc.Wire.read_fields`, the bytes that wait and one more, of which each field takes one.
--
-- Not modelled: MySQL, libzdb, log4cplus, the system calls and thrift's own library, which are
-- parameters; what the parts write to the logger, and the clock readings for it; thrift's event
-- handlers; threads within a request or a round of the daemon: these run to their end before the next
-- step.
pub mod Prelude
pub mod Machine
pub mod Memory
pub mod Logger
pub mod Utils
pub mod Protocol
pub mod Client
pub mod Coder
pub mod Float
pub mod Database
pub mod World
pub mod Send
pub mod Mobile
pub mod Message
pub mod Qos
pub mod Handler
pub mod Rpc
pub mod Socket
pub mod System
pub mod Controller
pub mod Crc
pub mod Fifo
pub mod Tests
