-- ===== src/Lib.antt =====
-- VELOC, a library by which the processes of a parallel program save and restore their state.
--
-- A process calls the client library (src/lib/client.cpp), which writes a file of protected memory
-- regions to a local scratch directory and sends a request (src/common/command.cpp) through a queue
-- (src/common/ipc_queue.hpp) to the active backend. The backend gives each request to a list of
-- modules (src/modules), which copy the file to a persistent storage (src/storage), keep a checksum
-- of it, limit how many versions there are and watch over the clients. What the
-- modules answer goes back through the queue.
--
-- Base           numbers, byte strings, lists, and the ordered maps of C++ by int
-- Command        command_t: the request, its file names (`stem`, `filename`), and in Command/Match
--                the parser of file names (`match`), a hand-written matcher for the one regular
--                expression that src/common/command.cpp builds
-- Header         read_header of src/common/ckpt_util.cpp, and the header that checkpoint_mem writes
-- Queue          client_queue_t; in Queue/Ipc the operations of both sides of
--                src/common/ipc_queue.hpp, in Queue/Socket those of src/common/socket_queue.hpp, with
--                the loop over its sockets in Queue/Socket/Connections, and in Queue/Thallium those of
--                src/common/thallium_queue.hpp; a run is a sequence of
--                operations, since each of them holds the lock of what it changes. Queue/Spec is the
--                abstract machine that a queue is held to, and the record that a queue fills for it
-- Client         client_impl_t of src/lib/client.cpp: in Client/State the object and the registration of
--                memory regions, in Client/Checkpoint and Client/Restart the calls of the two phases;
--                the application's memory, its functions and the backend are parameters
-- CInterface     src/lib/veloc.cpp: the calls from C, over the one pointer to a client
-- Config         config_t of src/common/config.cpp: the parameters, and the storage that they choose
-- Backend        the main loop of src/backend/work_queue.cpp with its threads, as steps
-- Inspect        src/tools/veloc-inspect.cpp: the options, and what is printed for a checkpoint file
-- Cache          src/lib/posix_cache.cpp: the queue of background writes as steps of its threads, and the
--                object of one open file
-- FileSystem     the system calls on files, as a parameter with the laws that are relied on
-- FileUtil       src/common/file_util.cpp: the directory walk, reading, writing and copying
-- Storage        storage_module_t of src/storage, the interface of a persistent storage, and in
--                Storage/Posix, PosixAgg, Axl and Daos its four implementations: a directory, one file
--                for all ranks, and the two that use a library
-- Modules        the modules of the backend: Manager, Transfer, Chksum, Versioning, Watchdog and
--                Erasure, each with its process_command, and the barrier between clients, Aggregator
--
-- A function that ends by an exception returns it as a value, with the state as far as it had come;
-- FATAL, which exits, is `none`, or `exits` where a call has more endings. The wait of a caller is `none` of an operation that cannot go on
-- yet. Times are natural numbers of seconds.
--
-- Bounds and fuel: an int has 32 bits and a size_t 64, and a header's sums of sizes wrap at 2^64 as
-- in the code. The decimal text of n takes n + 1 rounds of fuel, which is enough since n / 10 < n.
-- The loop of read_header has an unsigned counter that never reaches a count of 2^32 or more: it is
-- then bounded by the size of the file, which each round uses up by 12 bytes.
--
-- The loops over partial transfers take the answers of the system as a list, and are `none` where the
-- list is used up before they end.
--
-- Not modelled: MPI, shared memory, threads, sockets, remote calls, SHA256, the erasure coding, AXL and
-- DAOS libraries and the parser of configuration files, which are not part of the repository or
-- copied into it; what is used of them and of the disk are parameters. Output to logs is left out.
-- The start of the backend's process (src/backend/main.cpp), the constructors of the client library and the list of modules that the manager
-- builds are not covered.
pub mod Base
pub mod Command
pub mod Header
pub mod Queue
pub mod FileSystem
pub mod FileUtil
pub mod Storage
pub mod Modules
pub mod Backend
pub mod CInterface
pub mod Cache
pub mod Client
pub mod Config
pub mod Inspect
