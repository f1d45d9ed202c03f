-- ===== src/Lib.antt =====
-- Verification of mdt-dialout-collector, a collector of gRPC dial-out telemetry.
--
-- Routers of Cisco, Juniper, Nokia and Huawei open streams to the collector. A state machine per
-- stream takes the messages from a completion queue, the handler of the vendor makes a JSON text
-- of each, and deliver_payload hands it to Kafka in an envelope, or to a ZMQ socket as a pointer.
-- The same core runs as a daemon and, behind a C interface, inside pmacct.
--
-- Which file is about which part:
--   Common       the types and lemmas that the parts share. A C++ function that may throw returns
--                Partial, whose faults are the exceptions, undefined behaviour, and the ends of
--                the process; std::string is a list of bytes, or a String where it is only compared
--   Config       src/utils/cfg_handler.cc: the loaders of single settings (Load) and the handlers
--                of logs, main, data manipulation, Kafka and ZMQ. A handler gives the map that it
--                fills, false, or an exception. libconfig and the file system are the record
--                Machine. Each file Accepts says which files a handler accepts and with what map
--   Logging      src/utils/logs_handler.cc: the boot logger and the multi-logger, with their sinks,
--                in spdlog's registry; what is logged is left out
--   Peer         src/utils/peer_parser.cc: ParsePeer
--   Fsm          src/core/mdt_dialout_core.cc: Proceed, which the four stream classes have alike,
--                over the handler of a message; Fsm/Pool is RunFsm with the streams of a server,
--                and Fsm/Phases the life of a stream as its reports show it, without its slots
--   Json         jsoncpp, which is a parameter with its documented laws: its reader refuses a text,
--                or throws where one is nested too deep; Json/Tree meets them
--   Labels       LoadLabelMap, LoadLabelMapPreTagStyle and ReloadLabelMaps of
--                src/mdt_dialout_collector.cc, over the rows and columns that rapidcsv reads
--   Payload      src/dataManipulation/data_manipulation.cc: the envelope (BuildEnvelope) and the
--                functions that it replaced, and the JSON of Cisco's GPB-KV messages, of
--                Juniper's and Nokia's updates and of Huawei's rows
--   Delivery     src/dataDelivery and src/dataWrapper: the Kafka producer, and the ZMQ pusher and
--                poller with the payloads of src/bridge on an explicit heap, where the pointers of several
--                sockets may overtake each other (Delivery/Zmq/Overtaking); Delivery/Zmq/Client is
--                src/pmtelemetryd.c, a host process in C that takes the payloads
--   Server       src/core/mdt_dialout_core.cc: deliver_payload, the handlers of the four vendors'
--                messages, VendorPlumbing with the contexts that the FsmCtrl functions build, the
--                Bind functions with the socket mutator, and the registry of servers with their
--                shutdown. Server/Handed is the interface that the four handlers meet and what a
--                whole stream comes to; Server/FsmCtrl has the FsmCtrl functions, which also meet
--                one interface; Server/Workers has the worker threads and a call of
--                initiate_shutdown, one step at a time and in any order
--   Startup      main, in src/mdt_dialout_collector.cc, and src/bridge/grpc_collector_bridge.cc: the
--                options (Arguments), the configuration (Options), the threads (Threads,
--                VendorThread), the start (Daemon, Bridge), the signals and the poller (Watch), the
--                joins of main beside the other threads (Joins), and what the C interface
--                allocates and frees (Bridge/Memory)
--   Tests        the theorems at concrete inputs
--
-- A handler of Server is the parameter of Fsm, so that what Fsm shows holds for it. Numbers are
-- natural numbers, and the sequence numbers wrap at 2^64, a port at 2^16, the places in a pretag row
-- at 2^32; an int that would overflow is a fault. The one fuel is that of the loop over the tokens
-- of a pretag label, which starts with one more than the label's length: each round removes a byte.
-- Inputs are the clock, the answers of sockets and of the Kafka producer, the order in which the
-- poller's socket gives the pointers, failing allocations, and which threads end where the bridge stops.
-- A completion queue is the sequence of its reports. The mutexes themselves are not modelled: what
-- they protect is one step, and only the registry's accesses are interleaved with other threads.
--
-- The registry of loggers is part of the starts of the daemon and of the bridge; the code behind them
-- is modelled with the multi-logger in place. Server/Workers has a process with one call of
-- initiate_shutdown, and workers whose Bind functions do not throw.
--
-- Not modelled: the messages of the log other than those about the options of a socket, what gRPC's
-- builder does and when it frees its socket mutator, the bytes in the signal pipe, and the vendored
-- copies of rapidcsv and modern-cpp-kafka, whose results are inputs.
pub mod Common
pub mod Config
pub mod Logging
pub mod Peer
pub mod Fsm
pub mod Json
pub mod Labels
pub mod Delivery
pub mod Payload
pub mod Server
pub mod Startup
mod Tests
