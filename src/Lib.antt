-- ===== src/Lib.antt =====
-- A verification library for v-c-agentd, the blockchain agent of Velo Payments: the data service, which
-- keeps the agent's LMDB database, and the wire code by which the other services talk to it.
--
-- The program's services are processes that exchange packets over sockets. A service that wants data
-- encodes a request (src/dataservice/dataservice_encode_request_*.c). The data service reads the method
-- id of the packet, switches to the handler of the method (dataservice_decode_and_dispatch.c), decodes
-- the payload (dataservice_decode_request_*.c) and calls the operation on a child context, which checks
-- the capability of the context (include/agentd/bitcap.h) and changes or reads the database in an LMDB
-- transaction. The transaction queue is the part of the database that
-- waits for the next block; the addition of a block moves its transactions from the queue to the blocks.
--
-- Prelude: names of the libraries, Boolean tests and lists over the native numbers.
-- Wire: bytes and unsigned integers; `htonll` is src/inet/htonll.c. The host is little-endian.
-- Status: the status codes (include/agentd/status_codes/) and results. `fault` stands for an access
--   outside an object, which C leaves undefined.
-- Method: `dataservice_api_method_enum` of include/agentd/dataservice.h.
-- Codec: requests (src/dataservice/dataservice_protocol_internal.h). Codec/Encode has one function for
--   each dataservice_encode_request_*.c, Codec/Decode one for each dataservice_decode_request_*.c, each
--   of the file's name without `dataservice_`; Codec/Dispatch is the switch. Codec/Layout states the
--   packets, as the comments in the encoders draw them. A pointer that may be NULL is an option, and the
--   buffers of the vccrypt library are a parameter (`Target`).
-- Responses: the response packet (dataservice_decode_and_dispatch_write_status.c), and the encoders and
--   decoders of the payloads (src/dataservice/dataservice_{encode,decode}_response_*.c); those of
--   Responses/Reads are all but the three of the file itself. The sizes that the program keeps in a
--   `uint32_t` wrap around; the theorems on whole responses name the size below which they do not.
--   `malloc` is a parameter.
-- Bitcap: capability sets, include/agentd/bitcap.h.
-- Contexts: the table of child contexts and its free list, src/dataservice/dataservice_instance_create.c,
--   dataservice_child_details_{create,delete}.c, dataservice_child_context_{create,close,lookup}.c and
--   dataservice_root_context_{init,reduce_capabilities}.c, with their handlers
--   dataservice_decode_and_dispatch_*.c. A pointer into the table is an index. A handler gives the status
--   or the payload that the program writes to the socket, and the instance after it. The status with
--   which the database files open (dataservice_database_open.c) is a parameter.
-- Settings: the global settings, src/dataservice/dataservice_global_settings_{set,get}.c.
-- Lmdb: what is used of LMDB and of `malloc`. Neither is part of the repository: `Platform` is a
--   parameter of the model, and `IsReliable` states their documented behaviour where no call fails.
--   Lmdb/Cmd has the commands that the operations are chained of.
-- Queue: the transaction queue of src/dataservice/dataservice_transaction_{submit,drop,promote,get,
--   get_first}.c, a doubly linked list in the database `pq_db`. A UUID is the number that its bytes
--   make. An operation maps the store of the parent transaction, or of the environment if there is none,
--   to a result and the store after it. A stored value is a node with the bytes behind it, or a value
--   shorter than a node. Queue/Chain says which stores hold which list of transactions, Queue/Spec what
--   a call does to such a list. The build option ATTESTATION of meson.build is a parameter.
-- Database: the six databases that one LMDB transaction sees (src/dataservice/dataservice_internal.h), and
--   what is stored in them.
-- Blocks: src/dataservice/dataservice_block_make.c (Certs, Insert, Children, Make) and the reads of the
--   block databases (Read). What the program uses of the vccert and vccrypt libraries is a parameter,
--   `Certificates`. Blocks/Chain says what the databases hold for a chain of blocks, Blocks/Ledger what
--   the addition of a block promises, and Blocks/Refines has the steps from the one to the other.
-- Service: the handlers of the operations (src/dataservice/dataservice_decode_and_dispatch_*.c) behind the
--   switch, as a step on the contexts and the store that gives the response. Service/Exchange adds the
--   client's encoder and decoder to it, Service/Effects is about changes and Service/Readings and
--   Service/Records about reads, and Service/Stored about settings. Status/Code has the numbers of
--   the status codes.
--
-- The loops of the modelled code but for copies, over the 1024 slots of the table and over the wrapped
-- transactions of a block, are structural recursion: no definition runs on fuel.
--
-- Not modelled: the release of memory, the sockets and the event loop, the database files, and the
-- other services (protocol, canonization, notification, random, listen and auth service, the supervisor,
-- the configuration reader).
pub mod Prelude
pub mod Wire
pub mod Status
pub mod Method
pub mod Codec
pub mod Responses
pub mod Bitcap
pub mod Contexts
pub mod Lmdb
pub mod Settings
pub mod Queue
pub mod Database
pub mod Blocks
pub mod Service
