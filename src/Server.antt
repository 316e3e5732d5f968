-- ===== src/Server.antt =====
-- async/async_server.cpp: AsyncThriftServer::Impl, its accept loop, its table of connections and
-- what a server connection adds to the receive side of Conn. A connection is numbered when it is
-- allocated; `deleted` lists those deleted. What a processor does with a frame is an argument; for one
-- frame it calls back at most once. `none` is a failed assertion, a memcpy without a result, or the use
-- of a deleted connection.
pub mod Lifetime
pub mod Oneway
mod Examples
use async_thrift.Prelude.{
  ℕ, ◌+◌, List, [], ◌∷◌, Bool, true, false, Option, none, some, if◌then◌else◌,
}
use async_thrift.Map.{Map, insert, erase}
use async_thrift.Conn.{
  Conn, Action, reads, frame_ready, closes, common_init, restart_recv, continue_recv,
}
use async_thrift.Conn
use async_thrift.Errors.{ErrorCode, failed}

-- What a connection waits for: a read, the callback of the asynchronous processor, or a write.
pub data Waiting : Type 0 where
  reading processing writing : Waiting

pub record Peer : Type 0 where
  pub conn : Conn
  pub waiting : Waiting

pub record Server : Type 0 where
  pub async_rpc : Bool
  pub table : Map Peer
  pub new_conn : Option ℕ
  pub next : ℕ
  pub deleted : List ℕ

pub new_server : Bool → Server
new_server async_rpc = record {
  async_rpc = async_rpc;
  table = [];
  new_conn = none;
  next = 0;
  deleted = [];
}

pub async_accept : Server → Server
async_accept s = record s { new_conn = some s.next; next = s.next + 1 }

abbrev pub keep : ℕ → Peer → Server → Server
keep id peer s = record s { table = insert id peer s.table }

-- ConnManager::start
abbrev pub start : Option ℕ → Server → Server
start none s = s
start (some id) s = keep id (record { conn = (restart_recv common_init).0; waiting = reading }) s

-- `delete` of a connection that the table does not have.
abbrev pub delete_new : Option ℕ → Server → Server
delete_new none s = s
delete_new (some id) s = record s { deleted = id ∷ s.deleted }

pub handle_accept : ErrorCode → Server → Server
unfolding async_accept
handle_accept ec s =
    if failed ec
    then record (delete_new s.new_conn s) { new_conn = none }
    else async_accept (record (start s.new_conn s) { new_conn = none })

-- Connection::on_close: `delete this`, whose destructor takes it out of the table.
pub on_close : ℕ → Server → Server
on_close id s = record s { table = erase id s.table; deleted = id ∷ s.deleted }

abbrev pub processes : Bool → Waiting
processes async_rpc = if async_rpc then processing else writing

-- What `process` does: it returns, and an asynchronous processor calls back later or never; it
-- throws; or an asynchronous one calls back before it returns, or before it throws.
pub data Processed : Type 0 where
  returns throws : Processed
  calls_back calls_back_and_throws : ErrorCode → Bool → Processed

-- The callback that the processor invokes.
pub async_process : ErrorCode → Bool → ℕ → Peer → Server → Server
unfolding on_close
async_process ec is_oneway id peer s =
    if failed ec
    then on_close id s
    else if is_oneway
    then keep id (record { conn = (continue_recv peer.conn).0; waiting = reading }) s
    else keep id (record peer { waiting = writing }) s

-- A connection whose callback has been invoked has an operation outstanding or is deleted; if then
-- `process` throws, it is deleted under the operation, or deleted again.
pub on_handle_frame : Processed → ℕ → Conn → Server → Option Server
unfolding on_close async_process
on_handle_frame returns id conn s =
    some (keep id (record { conn = conn; waiting = processes s.async_rpc }) s)
on_handle_frame throws id conn s = some (on_close id s)
on_handle_frame (calls_back ec is_oneway) id conn s =
    if s.async_rpc
    then some (async_process ec is_oneway id (record { conn = conn; waiting = processing }) s)
    else none
on_handle_frame (calls_back_and_throws ec is_oneway) id conn s = none

abbrev pub after_read : Processed → ℕ → Server → Option (Conn × Action) → Option Server
after_read does id s none = none
after_read does id s (some (conn, reads off room)) =
    some (keep id (record { conn = conn; waiting = reading }) s)
after_read does id s (some (conn, frame_ready frame)) = on_handle_frame does id conn s
after_read does id s (some (conn, closes reason)) = some (on_close id s)

pub on_handle_read : ErrorCode → List ℕ → Processed → ℕ → Peer → Server → Option Server
unfolding on_handle_frame
on_handle_read ec bytes does id peer s =
    if failed ec
    then some (on_close id s)
    else after_read does id s (Conn.on_handle_read peer.conn none bytes)

pub on_handle_write : ErrorCode → Processed → ℕ → Peer → Server → Option Server
unfolding on_handle_frame
on_handle_write ec does id peer s =
    if failed ec
    then some (on_close id s)
    else after_read does id s (Conn.on_handle_write peer.conn none)
