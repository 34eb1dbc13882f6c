-- ===== src/Lib.antt =====
-- A verification library for PacketForge and the thread-pool server.
--
-- The repository holds two systems. PacketForge_V1 is a small client and server that exchange binary
-- packets over TCP. Version1 and Version_2 hold a server that hands its requests to a thread pool;
-- their src/Server.cpp are the same text.
--
-- How PacketForge fits together, from the bottom, and where each part is modelled (its paths are
-- under PacketForge_V1):
--
-- - Error, Exception: include/common/error.hpp and src/common/error.cpp; the exceptions of
--   include/protocol/decoder.hpp. Code that may throw returns an Outcome.
-- - Endian: src/common/endian.cpp. The swaps are the source's masks and shifts. The byte order of
--   the host is an argument (hostEndianness finds it out), and objects in memory are lists of bytes.
-- - Opcode, Packet: include/protocol/opcode.hpp, include/protocol/packet.hpp and
--   src/protocol/packet.cpp. `Fits` says what the C++ types of a packet's fields give.
-- - Codec: src/protocol/encoder.cpp and src/protocol/decoder.cpp. Codec/Wire and Codec/Header hold
--   independent descriptions of the wire format to compare them with.
-- - Buffer: include/common/buffer.hpp and src/common/buffer.cpp; Buffer/Queue holds the queue of bytes
--   to compare it with. Sizes wrap around at 64 bits.
-- - Config, Config/Loader: include/config and src/config. A text is the list of its bytes, and each
--   text of a std::runtime_error of the loader is a constructor of LoadError.
-- - Dispatch: src/protocol/opcode_dispatcher.cpp and src/protocol/handler.cpp.
-- - Os: the system calls. The repository does not hold them, so they are a parameter, a record of
--   functions over a state of the world. What the sources rely on is named in `Descriptors` (which
--   calls open and close a descriptor), `Sends` and `Receives` (what send and recv do to a stream),
--   and `Reliable` of Transport/Reliable (calls on a descriptor that do not fail). Each of them is
--   satisfied by the small system of Tests/Sim.
-- - Socket, Connection, Transport, Server: src/network/socket.cpp, connection.cpp, transport.cpp and
--   src/server/server.cpp. An object that a member function changes is an argument with its new
--   value in the result, and so is the world. Moving from an object leaves it as the code leaves it.
-- - Logger: include/common/logger.hpp and src/common/logger.cpp, on the bytes of the two streams.
-- - PacketIo: src/protocol/packet_io.cpp, over Transport and Codec. PacketIo/Sequence makes many calls of
--   it, one after the other.
-- - Client: src/client/client.cpp, over Transport and PacketIo.
-- - App/ServerMain: apps/server_main.cpp. The one-pass loop, whose breaks lead to the cleanup, is
--   `session`; `main` is the cleanup around it. The flag of the SIGINT handler is a call of the
--   world, so that a signal may arrive before any check. App/ServerMain/Promise holds `promised`, a
--   specification of the program that reads the exit code and the answer off the client's bytes;
--   `Listens` of App/ServerMain/Listening says that the program can listen and that a client connects,
--   which the system of Tests/OneClient satisfies.
-- - App/ClientMain: apps/client_main.cpp. App/Together runs it against the server program: each has a
--   machine of its own, with its own state of the world, and the streams between them are equations.
--   `Connects` of App/ClientMain/Connecting says that the client program's connection is established.
-- - App/Probe: apps/packetforge_protocol_error_client.cpp and packetforge_dispatch_failure_client.cpp,
--   two clients on bare system calls. The C library's byte-order conversions are a parameter
--   (`Conversions`), with what they do to bytes in `NetworkOrder` of App/Probe/Verdict.
-- - App/IntegrationSuccess, App/RemoteClose, App/MalformedPacket, App/SendFailure, App/Resets: the
--   other clients of apps: PacketForge_integration_success_client.cpp; remote_close_client_main.cpp and
--   shutdown_client_main.cpp; packetforge_malformed_packet_client.cpp;
--   packetforge_transport_send_failure_client.cpp and packetforge_packetio_send_failure_client.cpp; and
--   packetforge_receive_failure_client.cpp, packetforge_response_send_failure_client.cpp and
--   packetforge_gap035_client.cpp. App/Clients collects what holds of all of them.
--
-- The thread pool of Version_2/src/Server.cpp is ThreadPool. A block under the mutex is one
-- function, and ThreadPool/Steps lets callers, workers, notifications and spurious wakeups take
-- steps in any order. A call of notify_one or notify_all is a step of its own, later than the unlock
-- before it. Tasks are opaque. Every task ends; a task that throws would end the program.
-- ThreadPool/Pending and ThreadPool/Ends measure what an open and a stopping pool have still to do.
-- RequestServer is the program around the pool, whose tasks are clients' descriptors: processClient,
-- and one round of main's endless loop. Decimal is std::to_string. RequestServer/Program puts them
-- together: a relation of the steps that the threads may take next, each system call and each locked
-- block of main's loop, of the workers' sessions and inside the pool a step of its own, in any order.
-- `Log` of RequestServer/Session and `Accepts` of RequestServer/Program/Order name what recv and accept
-- have given so far; Tests/Sim keeps both lists.
-- EchoClient is Version_2/src/Client.cpp, a client of this server; EchoClient/Together runs it against
-- processClient. FirstClient is Version1/src/Client.cpp.
--
-- processClient runs on fuel, one unit for each round: its loop ends when the client does. One unit
-- more than the client has bytes to send is enough, since every round but the last takes at least
-- one. The two loops of EchoClient run on fuel as well, since a call that a signal interrupts is
-- made again: 13 rounds are enough for its 12 bytes if no call fails. No other function runs on
-- fuel. The loops of send and receive, and those of the probes, are recursive on the accessibility
-- of what is left to do, so they are total: each round of the loop moves at least one byte or ends
-- it.
--
-- Not modelled: console output and the programs' calls of the logger; std::bad_alloc; the limits of
-- std::size_t, but for the byte buffer's sizes; assigning an object to itself, which the code
-- returns from at once; calling a pool whose destructor runs, which C++ leaves undefined; SIGPIPE,
-- so a send to a closed connection is an error and not the end of the program. The repository's own
-- tests and its build files are left out altogether.
pub mod Base
pub mod Bits
pub mod Opcode
pub mod Error
pub mod Decimal
pub mod Client
pub mod Config
pub mod Buffer
pub mod Exception
pub mod Endian
pub mod Packet
pub mod Codec
pub mod Dispatch
pub mod Os
pub mod Socket
pub mod Connection
pub mod Transport
pub mod PacketIo
pub mod Server
pub mod App
pub mod ThreadPool
pub mod RequestServer
pub mod EchoClient
pub mod Logger
pub mod FirstClient
mod Tests
