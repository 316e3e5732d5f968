-- ===== src/Lib.antt =====
-- async_thrift: asynchronous and pooled thrift services over Boost.Asio.
--
-- The program. A connection of a server (async/async_server.cpp) or of a client reads framed
-- messages into one growing buffer (async/async_connection.h). A client (async/async_client.cpp, with
-- the stub that the patched thrift compiler writes) sends one operation at a time over such a
-- connection and gets its reply by a callback. A pool (async/asio_pool.cpp) keeps open sockets for
-- a set of endpoints, and a background probe renews them; a service manager names the endpoints of
-- a service and spreads calls over them. io_service_pool (async/io_service_pool.cpp) spreads work
-- over I/O services. The synchronous side (sync) has two servers, which give each client a task, and
-- pools of client connections: ThriftConnectionPool for one server, with a thread that probes it,
-- ThriftPool over the pools of several servers, and ThriftPoolTss for each thread by itself.
--
-- The files.
--   Conn: AsyncConnection's receive side. start_recv is restart_recv and continue_recv;
--     handle_buffer, on_handle_read and on_handle_write keep their names. A handler returns the
--     connection and what it ends with: a read that is started, a frame handed over, or a close.
--     Conn/Frame has the wire format as an independent parser, Conn/Inv and Conn/Handlers measure
--     each handler by it, Conn/Stream and Conn/Progress follow whole sessions. A session ends where
--     a handler has no result: the memcpy of on_handle_write overlaps when more bytes wait behind
--     the handled frame than it is long.
--   Asio: AsioPool::Impl. Each part under the lock is one function (mark_adding, del, pick,
--     finish_connect, put_locked, clear); Asio/Probe has those of __probe, and add. Asio/Threads
--     lets the parts interleave in any order; Asio/Calls, Asio/Round and Asio/Adding take whole
--     calls, and Asio/Table has the status changes.
--   Map: the uses of std::map. Errors: async/async_exception.h.
--   Client: AsyncThriftClient. Client/Handlers has the completion handlers, Client/Once histories,
--     Client/Reply the outcome of a reply, and attach and detach.
--   IoPool: io_service_pool.
--   Services: ServiceManager::Impl (async/service_manager.cpp) over an abstract pool, with the
--     addresses of set elements that a service's selection keeps. Services/Select is about a
--     selection in order, Services/Stale about one that a set_backend has overtaken.
--   Server: AsyncThriftServer::Impl (async/async_server.cpp), over Conn. Server/Lifetime follows the
--     connections from allocation to deletion, where a processor calls back at most once for a frame
--     and does not throw after it has, Server/Oneway what follows a oneway call (with
--     Conn/Reread).
--   ThreadPool: the accept loop of the synchronous server (sync/base_server.cpp and
--     sync/thread_pool_server.cpp), a turn at a time. Threaded: the server with a thread for each
--     client (sync/threaded_server.cpp), its tasks and its shutdown.
--   ConnPool: ThriftConnection and ThriftConnectionPool (sync/thrift_pool.h); ConnPool/Probe has the
--     work of the probe thread. ConnPool/Owner says which set owns which connection, ConnPool/Calls
--     and ConnPool/History follow the calls, ConnPool/Outcome, ConnPool/Return, ConnPool/Health and
--     ConnPool/Reclaim are about the answers of get, putting back, the probes, and what is reclaimed
--     and destroyed.
--   Pools: ThriftPool (sync/thrift_pool.h), over ConnPool; Pools/Renewal has update_servers and
--     add_server. Pools/Update is about update_servers,
--     Pools/Pick about the choice of a server, Pools/Inv, Pools/Holders, Pools/Returning, Pools/Loops,
--     Pools/Servers and Pools/History about who holds which connection, Pools/Removal about
--     remove_thread. The calls hold one mutex and do not interleave; a pass of remove_thread comes
--     between two calls, or, in put_through, within a put.
--   Tss: ThriftPoolTss (sync/thrift_pool_tss.h), as one thread sees it.
--   ProcessStat: the memory of a process (fb303/process_stat.c). ProcessStat/Hex is about numbers,
--     ProcessStat/Line about a whole line.
--
-- Correspondence. A socket, an endpoint, a thread and a callback are numbers. What the system
-- answers (the bytes of a read, an error, whether recv finds a socket closed, what connect returns)
-- is an argument. Failed assertions are `none`, and so are a memcpy of ranges that overlap and the use
-- of something deleted, which C++ leaves undefined; only that an update of the servers has no empty
-- host and no port 0, which a new pool asserts, is left to the caller. A list of pooled sockets has the vector's back at
-- its head. Counters wrap at 64 bits and bytes_recv_ at 32.
--
-- Bounds. Every loop of the code is a recursion on the data that it walks, or on the number of
-- turns that the code itself bounds (try_each, connect_more, start_threads, try_status, seek,
-- try_clones); none has fuel. remove_thread, which may not end, is given any number of rounds.
--
-- Not modelled: log texts and those of get_stat, timers, the encoding of arguments and results (thrift's
-- own), sockets' options, the acceptor's sockets: they are text, the system's or another library's.
-- set_total_conn and remove_server of ThriftPool are not either, since they call functions that no
-- class declares; nor are AsyncProcessor, the rest of fb303, and the compiler patch beyond the
-- client stub.
pub mod Prelude
pub mod Conn
pub mod Map
pub mod Asio
pub mod Errors
pub mod Client
pub mod IoPool
pub mod Services
pub mod Server
pub mod ThreadPool
pub mod ConnPool
pub mod Pools
pub mod Threaded
pub mod Tss
pub mod ProcessStat
