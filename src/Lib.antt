-- ===== src/Lib.antt =====
-- httpserv: a model of the library libhttpserv, a small HTTP server in C, and what holds of it.
--
-- The parts of the program and the files that model them (paths from the root of the repository):
--
--   Cstring   The strings of C: `httpserv_streq` of src/stringh.c, and the uses of `strncmp`,
--             `strncat` of one byte, `snprintf("%zu")`, `strtol` and `isspace`. Strip: the functions
--             that strip white space. A string is the list of its bytes up to the NUL.
--   Http      Method: the methods and their names (src/http/request.c). Status: the enum of
--             include/http/status.h and src/http/status.c. Request: the request, its headers and the
--             search for one; Request/Parse: `httpserv_http_request_from_raw`, with one function for
--             each of its four loops. Response: src/http/response.c with the counters `lenght`,
--             `numheads` and `bodylength` as the code keeps them; Response/Build:
--             `httpserv_http_response_build`. Request/Blocks and Response/Blocks: the blocks of memory
--             that the two objects hold, with their destructors.
--   Router    The list of routes and the look-up; Router/Line: `__httpserv_parse_line`; Router/File:
--             `httpserv_router_parse_from_file` (src/router.c). Memory: the same functions on the linked
--             list in memory, with the destructors.
--   Resource  The files that are served and the loader that keeps some of them (src/resource.c). Holds:
--             the same functions with the descriptors, mappings and blocks that they take and give back.
--   Net       The effects on descriptors, on the objects of OpenSSL and on memory, in order. Tls:
--             src/net/ssl.c. Connector: the union of a socket and a connection with TLS,
--             src/net/connector.c. Files: the writes of a resource (src/resource.c).
--   Server    src/net/server.c. Life: the creation of a server, its setup and its end. Accept: the
--             loop of `httpserv_httpserver_run`, as steps that interleave with those of the workers
--             and with the signal; a hand-over wakes one worker that sleeps.
--             `httpserv_httpserver_worker` is in Reader, the loop that reads a head, and Worker, the
--             rest, with the writes to the connection and its close as events.
--   Jobs      The jobs of the thread pool, their results (Exec) and their queue in memory (Queue) with
--             its end (Queue/End), src/job.c. Pool: the pool with its workers as a step relation, and
--             its end (Pool/End), src/threadpool.c; in Pool/Signals a worker wakes only by a signal.
--             Pool/Cancel: the workers while they are cancelled.
--             Await: the callers of `threadpool_job_result_await` and the thread of the job, as steps.
--             Blocks: the blocks of memory of jobs, results, workers and pools.
--   Config    The configuration file, src/config.c. A load is the list of the entries that it adds.
--             Destroy: the destructors, on nodes that are parameters.
--   Logging   The log, src/logging.c.
--   Version   src/httpserv.c, and `cweb_print_version` of cweb.c.
--   Memory    `malloc`, `realloc` and `free`, on the set of the addresses that hold a block.
--   Cweb      The loop over the arguments in `main` of cweb.c. Main: `main` from there to the loop of
--             the server. Signal: `handle_sigint`, and the end of `main`.
--   Prelude   Shared names, lists over the native numbers, Boolean tests, chains of options.
--   Tests     Instances of the theorems.
--
-- How they interact: `main` reads the arguments and the configuration, makes a server, and runs it. The
-- loop of the server submits a job for each connection, with the worker as its function, to the queue
-- of the pool, and closes the last connection itself when a signal has cleared `keep_alive`. The worker
-- reads a head from the connection, parses it, looks its path up in the router, loads a resource,
-- builds a response and writes both. In the loop a job stands for its data by a number, so that the
-- steps of the pool are those of the pool alone. The effects of a job are its result only, and its end
-- is a step that need not follow: a worker that reads for ever is a job without that step, and the
-- theorems on progress of the loop say by a function `ends` which jobs return. A crash ends the process,
-- and is no step.
--
-- State is passed on: a function that changes a struct returns it. A pointer that may be NULL is an
-- Option. A read outside a block, a read or write through NULL and a wait for ever are results of
-- their own (`fault`, `past_end`, `before_start`, `out_of_bounds`, `crashed`, `blocked`, or `none`
-- where memory is modelled), so that their absence or presence can be stated. Block sizes are kept where
-- the code computes them (`headers_size`, `size` of `Built`). The linked list of the jobs is a memory
-- from addresses to jobs, that of the routes one from addresses to blocks; where only the frees matter,
-- memory is the set of the addresses in use.
--
-- Loops are structural recursion on the bytes they read, with these exceptions. `read_head` has fuel,
-- one unit for each byte that is read; a round of fuel for each byte of the head is enough. The
-- decimal digits of n have fuel n + 1, which is enough for every n. The walks along the list of the
-- routes in memory have one round more than there are addresses in use, which is enough. The destruction of
-- the configuration has fuel for the depth of its tree.
--
-- Parameters: `regcomp` and `regexec` are functions on a type of compiled expressions; the file system
-- is a record of the calls `access`, `stat`, `open` and `mmap`, and for the program and its log a
-- function from a path to contents; the calls on sockets, and what OpenSSL accepts, are records of
-- functions; the tree of the submodule libtree is the look-up of a key in the entries that were added,
-- and for its destruction a type of nodes with their value and children;
-- the result of the calls of `fork` is one of its five cases; what fresh memory holds is an argument
-- (`junk`, `stale`); the functions that jobs run and the results of `accept` are arguments; the local
-- time is an argument of each log call. Nothing is assumed of them beyond what a theorem states.
--
-- Assumptions: memory can be allocated, the mutexes and condition variables can be created, lengths
-- fit an `int`, so that the counters of the loops do not wrap around, and a function that holds a mutex
-- to its end is one step.
--
-- Not modelled: what is sent over a connection with TLS; the tree of the submodule libtree, which holds
-- the configuration; the texts that cweb.c prints, but for the version; include/httpserver.h, which no
-- file includes. The body of a request is one read, with zeros where the stream ends before it; the
-- worker does not look at it again. The allocations of the worker, of the parser and of the server are
-- not followed. `httpserv_http_request_build` is modelled as it stands: it never writes the
-- block that it returns. The calls that log are left out of the functions that make them.
pub mod Prelude
pub mod Memory
pub mod Cstring
pub mod Http
pub mod Router
pub mod Resource
pub mod Net
pub mod Server
pub mod Jobs
pub mod Config
pub mod Logging
pub mod Version
pub mod Cweb
pub mod Tests
