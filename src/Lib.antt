-- ===== src/Lib.antt =====
-- aoq, a message queue server: a verification of its core.
--
-- A request is read into chunks of a memory pool (mempool.c), parsed in place into lengths and cursors
-- (parser.c), and given to a command's handler (command.c). The handlers find a queue by name in a hash
-- table (hashtable.c), and put the request's arguments on it or take them off (aoq.c). A message is the
-- array of arguments, whose cursors keep the slab of chunks alive until `freeArgs`.
--
-- Which file models what:
--   Heap          pointers, `malloc`, `free`, undefined behaviour; Heap/Chain: linked nodes
--   CText         the C library's `atoi`, `isspace`, `strlen` on bytes
--   MemPool       mempool.c: `initMemPool` to `freeMemSlab`, `tuneMempool` (mempool.h: the structs)
--   Cursor        mempool.c: `createCursor`, `moveCursor`
--   Parser        parser.c, all functions
--   Queue         aoq.c, all functions but `getQueue`
--   HashTable     hashtable.c, all functions but `hash_status`
--   Registry      aoq.c: `getQueue`
--   Func          func.c, all functions
--   AoqLog        aoqlog.c: `initAoqLog`, `writeAoqLog`, `saveAoqLog`
--   Command       command.c: `get_queue_name`, `nil`, `push`, `pop`, `delqueue`; Command/Report: `status`,
--                 `queues`, `queue`
--   ServerStat    serverstat.h: the settings, `get_process_mem`
--   Receive       aoq-server.c: `socket_read_cb`; aoqlog.c: `readLogLine`, `execute_command_line`,
--                 `recovery_from_aoflog`
--   Events        aoq-server.c: `accept_cb`, the timers, `saveParamtersData`, `kill_signal`, `aoq_start`; the
--                 callbacks as steps of the whole state
--   Lsp           lsp.c, all functions, over any arithmetic of `double`
--   Daemon        aoq-server.c: `init_daemon`, `mkpidfile`, `checkpidfile`, `tcp_server_init`
--   Main          aoq-server.c: `main`
--   Client        aoq-client.c: `protocol_convert` and what it calls, `server_msg_cb`; Client/Session: `main`,
--                 `cmd_msg_cb`, `event_cb`
--   Service       one queue through the socket: `push` and `pop` requests as they arrive, and the abstract
--                 queue that answers them
-- The children of each hold its lemmas, named for what they prove, and its tests.
--
-- State is passed explicitly: a heap for each type of node, and records for the structs. The sentinel
-- nodes `head` and `tail` of a pool, a slab and a queue are used for their `next` alone and are that
-- field. A function runs in `Run`: `fault` stands for undefined behaviour, `stuck` for fuel that ran out.
-- Arguments stand for what is not in the repository: `malloc` gives an address that is not in use and
-- does not fail, `realloc` gives an array with an unknown second half, `rand()` a list of numbers,
-- `read`, `write`, `getopt` and `fgets` are lists of what their calls return, and `beyond` is what memory
-- holds behind a block. A file is what is appended to it, and a print to it may fail after some bytes; of
-- `parameter.dat` it is the numbers that `fscanf` reads. The event loop runs one callback at a time, in any
-- order that their conditions allow.
--
-- Fuel bounds the loops over linked nodes. A slab or a queue of n nodes needs more than n rounds, a walk
-- of the cursor over n bytes more than n, a search of a hash chain its length; the theorems ask for that.
-- The `do` loop of `hash_insert` draws until a bucket is free, and so asks for a list of numbers that
-- leads to one.
--
-- Integers that only count nodes are natural numbers, but a queue's `total` and the sum in `tuneMempool` fault
-- where an `int` would overflow; `uniqid` and the hash wrap at 32 bits. Numbers that
-- `atoi` reads from a request have at most six digits, which an `int` holds; an option's are checked.
-- Reading and receiving loops run on the lists of what arrives, or on fuel beyond a request's length.
--
-- What the handlers give to `write_reply` is kept with its connection; the loop of `write_reply` on what `write`
-- returns stands in Func alone. A chunk's block has `cksize` bytes, as it is allocated with, and the `memset` of
-- `mpfree` is not checked against it.
--
-- Not modelled: the options of the sockets, the messages for a person (aoqlog.c: `serverlog`; the help
-- texts), the rounding of floating point, so that in the event loop the estimate of the pool's size is any
-- number, and aoq.php.
pub mod Prelude
pub mod Heap
pub mod MemPool
pub mod CText
pub mod Cursor
pub mod Parser
pub mod Queue
pub mod HashTable
pub mod Registry
pub mod Func
pub mod Command
pub mod AoqLog
pub mod ServerStat
pub mod Receive
pub mod Client
pub mod Events
pub mod Main
pub mod Lsp
pub mod Service
pub mod Daemon
