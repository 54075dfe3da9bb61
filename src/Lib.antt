-- ===== src/Lib.antt =====
-- Verification of LCI, the lightweight communication interface.
--
-- LCI moves messages between processes over a network. A client opens an endpoint and sends, puts
-- or receives; the protocol engine, which the network's server layer calls for every arrival and
-- every finished send, matches arrived packets with posted receives, copies or transfers the data,
-- and completes the request in the way that the endpoint asks for. Packets come from pools of
-- bounded deques. Collectives run schedules of sends and receives on top of the client calls.
--
-- The files and the code that they are about:
--   Base        helpers: C's tests and bit operations on numbers, lists with numbers as indices
--   Ring        what a stretch of a circular array holds; used for Dequeue and Cq
--   Lock        include/lc/lock.h: one step for each atomic operation of a thread
--   Dequeue     include/lc/dequeue.h: the queue of free packets, one step for each operation
--   Cq          src/include/cq.h and src/cq.c: the completion queue
--   Pool        include/lc/pool.h and src/pool.c: the pools of packets over the deques
--   HashTable   include/lc/hashtable.h, src/hashtable.c and lc_make_key: the matching table
--   Wire        MAKE_PROTO and PROTO_GET_* of src/include/proto.h
--   Endpoint    lci_ep_open of src/include/lc_priv.h, src/ep.c and src/glob.c
--   Engine      src/include/proto.h and src/include/packet.h: handlers and completions
--   Calls       src/short.c, src/medium.c, src/long.c and src/tag.c: the client's calls
--   Coll        src/coll.c and src/coll/: schedules and their progress; Coll.Value: what they compute
--   Psm2        src/include/server/server_psm2.h: the server layer over the psm2 library
--   Ibv         src/include/server/server_ibv.h and server_ibv_helper.h: the server layer over verbs
--   Device      lci_dev_init of src/include/lc_priv.h, lc_ep_get_baseaddr and src/lc.c: start-up
--   Pm          src/pm.c: names over PMI's key-value space, and numbers as text
--   Mpi         src/mpiv.c and include/mpiv.h: the MPI-like calls and their pool of requests
--   Tests       runs at concrete inputs
--
-- Correspondence. Definitions have the names of the functions, types and macros that they
-- translate. A pointer is a number and NULL is 0; a word of w bits keeps its wrap-around.
-- `Engine.World` is all the state that the engine and the client calls read and write: packets,
-- requests, memory and endpoints by their addresses or numbers. What they ask of the server layer,
-- the packet pool and the user's callbacks is recorded in `calls` in the order of the code; what
-- those answer is in `World` and `Calls.Env`. `Psm2` and `Ibv` model that layer: what they ask of
-- their library is recorded in `mq` and `verbs`, and their progress runs the engine's handlers on
-- a `World`. `Ibv.Serve` makes the recorded calls on the ibv server, and `Ibv.Open` starts it. The
-- packets of a `Device` go through the operations of `Pool`; in the two servers the pool's answers
-- are arguments. `Mpi` stands on an older interface of the client calls, whose code the repository
-- no longer has: what it asks is recorded in `calls`, and the answers are arguments. A call of
-- exit, a copy past the end of a packet, an index past a row of a table, and a read of a member of
-- the packet's union that was not written, is `none`; so is a collective whose retries of a
-- refused send never end. An operation under a spin lock is one step of the model.
--
-- Bounds and fuel. The loop of `Coll.col_loop` gets one unit of fuel more than there are entries
-- left, and each turn takes one; the retries of LC_SAFE within a turn go through the list of the
-- answers of lc_send. The loops over distances get 32, more than the doublings of 1 below 2^31.
-- `Coll.Wait.wait_flag` takes a list of the turns of the loop. `Pool.lc_pool_get_slow` takes a
-- list of the numbers that `rand` returns, one for each attempt, and ends with none when it runs
-- out. `Coll.bit_length` gets the 32 bits that `__builtin_clz` counts in. `Mpi.until_taken` takes
-- a list of the answers that a call gets. `Ibv.Ranks.find_mod` gets as much fuel as there are
-- moduli up to a bound of the queue pairs' numbers; a number of 64 bits has at most the 20 digits
-- that `Pm.digits` prints. All other loops are structural.
--
-- Not modelled: the server for ofi, the start of the psm2 server, the attributes that all queue
-- pairs of the ibv server share, opal_cube_dim and opal_hibit, which nothing calls, and other
-- projects' copies (dreg, pmi, lcrq); the registration cache and PMI are parameters of what uses
-- them. Of the memory model of the machine, only the atomic steps of the spin lock are kept; the
-- fields of a union stand beside each other, and which is in use follows from the endpoint's
-- capabilities.
pub mod Base
pub mod Calls
pub mod Coll
pub mod Cq
pub mod Dequeue
pub mod Device
pub mod Endpoint
pub mod Engine
pub mod HashTable
pub mod Ibv
pub mod Lock
pub mod Mpi
pub mod Pm
pub mod Pool
pub mod Psm2
pub mod Ring
pub mod Tests
pub mod Wire
