-- ===== src/Server/Lifetime.antt =====
-- From its allocation to its deletion: where a server's connections are.
use async_thrift.Prelude.{
  ℕ, ◌+◌, ◌≡◌, List, [], ◌∷◌, Bool, Option, none, some, ltb, if◌then◌else◌, count,
}
use async_thrift.Map.{find, IsSorted}
use async_thrift.Map.Places.{in_table}
use async_thrift.Conn.{Conn}
use async_thrift.Conn
use async_thrift.Errors.{ErrorCode}
use async_thrift.Server.{
  Peer, reading, processing, writing, Processed, Server, new_server, async_accept, handle_accept,
  on_handle_read, on_handle_write, async_process,
}

abbrev pub new_list : Option ℕ → List ℕ
new_list none = []
new_list (some id) = id ∷ []

-- In how many places a connection is: about to be accepted, in the table, deleted.
abbrev pub places : ℕ → Server → ℕ
places id s = count id (new_list s.new_conn) + in_table (find id s.table) + count id s.deleted

pub record Lives (s : Server) : Type 0 where
  pub sorted : IsSorted s.table
  pub placed : (id : ℕ) → places id s ≡ (if ltb id s.next then 1 else 0)

-- Of what has a result.
abbrev IfLives : Option Server → Type 0
IfLives none = Unit
IfLives (some s) = Lives s

-- One event: a connection is accepted or fails to be, or what a connection in the table waits for
-- comes.
pub data Step (s : Server) : Server → Type 0 where
  accepts : (ec : ErrorCode) → Step s (handle_accept ec s)
  has_read :
      {t : Server} (id : ℕ) (peer : Peer) (ec : ErrorCode) (bytes : List ℕ) (does : Processed)
      → find id s.table ≡ some peer
      → peer.waiting ≡ reading
      → on_handle_read ec bytes does id peer s ≡ some t
      → Step s t
  has_processed :
      (id : ℕ) (peer : Peer) (ec : ErrorCode) (is_oneway : Bool)
      → find id s.table ≡ some peer
      → peer.waiting ≡ processing
      → Step s (async_process ec is_oneway id peer s)
  has_written :
      {t : Server} (id : ℕ) (peer : Peer) (ec : ErrorCode) (does : Processed)
      → find id s.table ≡ some peer
      → peer.waiting ≡ writing
      → on_handle_write ec does id peer s ≡ some t
      → Step s t

-- A server from `serve` on.
pub data Serves (async_rpc : Bool) : Server → Type 0 where
  opened : Serves async_rpc (async_accept (new_server async_rpc))
  next : {s t : Server} → Serves async_rpc s → Step s t → Serves async_rpc t
