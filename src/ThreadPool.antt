-- ===== src/ThreadPool.antt =====
-- sync/base_server.cpp and sync/thread_pool_server.cpp: when the server listens, and one turn of the
-- loop of serve(). The thread manager's counts, whether listen and close succeed, and how accepting
-- and adding the task end are arguments. A client is a number; `closed` lists the clients closed.
pub mod Turns
pub mod History
mod Examples
use async_thrift.Prelude.{
  ℕ, List, [], ◌∷◌, ◌++◌, Bool, true, false, Option, none, some, leb, ◌==◌, not, if◌then◌else◌,
}

pub record BaseServer : Type 0 where
  pub is_listen : Bool
  pub stop : Bool

unfoldable pub new_base_server : BaseServer
new_base_server = record { is_listen = false; stop = false }

unfoldable pub stop : BaseServer → BaseServer
stop b = record b { stop = true }

-- `listens`: serverTransport_->listen() does not throw.
unfoldable pub start_listen : Bool → BaseServer → Bool × BaseServer
start_listen listens b =
    if b.is_listen
    then (true, b)
    else if listens
    then (true, record b { is_listen = true })
    else (false, b)

-- `closes`: serverTransport_->close() does not throw.
unfoldable pub safe_stop_listen : Bool → BaseServer → BaseServer
safe_stop_listen closes b =
    if not b.is_listen then b else if closes then record b { is_listen = false } else b

-- How the try block ends: the task is added, or one of the four handlers runs.
pub data Outcome : Type 0 where
  added too_many_tasks transport_error thrift_error unknown_error : Outcome

pub record Serving : Type 0 where
  pub base : BaseServer
  pub tasks : List ℕ
  pub closed : List ℕ

-- How a turn of the loop ends.
pub data Turned : Type 0 where
  goes_on returns breaks : Serving → Turned

-- The client that accept() has returned, if it has.
abbrev pub clients : Option ℕ → List ℕ
clients none = []
clients (some client) = client ∷ []

abbrev pub close_client : Option ℕ → Serving → Serving
close_client client t = record t { closed = clients client ++ t.closed }

-- The try block and its handlers.
abbrev pub handle_client : Bool → Outcome → Option ℕ → Serving → Turned
handle_client closes added client t = goes_on (record t { tasks = clients client ++ t.tasks })
handle_client closes too_many_tasks client t =
    goes_on
      (record t { base = safe_stop_listen closes t.base; closed = clients client ++ t.closed })
handle_client closes transport_error client t = goes_on (close_client client t)
handle_client closes thrift_error client t = goes_on (close_client client t)
handle_client closes unknown_error client t = breaks (close_client client t)

abbrev pub listened : Bool × BaseServer → (Serving → Turned) → Serving → Turned
listened (true, b) more t = more (record t { base = b })
listened (false, b) more t = returns (record t { base = b })

unfoldable pub turn : ℕ → ℕ → Bool → Bool → Outcome → Option ℕ → Serving → Turned
unfolding start_listen safe_stop_listen
turn pending pending_max listens closes outcome client t =
    if leb pending_max pending
    then goes_on (record t { base = safe_stop_listen closes t.base })
    else listened (start_listen listens t.base) (handle_client closes outcome client) t

unfoldable pub erase : ℕ → List ℕ → List ℕ
erase task [] = []
erase task (t ∷ ts) = let rest = erase task ts in if task == t then ts else t ∷ rest

-- The end of Task::run, which closes its client's transports; a worker has then no more of it.
unfoldable pub finish : ℕ → Serving → Serving
unfolding erase
finish task t = record t { tasks = erase task t.tasks; closed = task ∷ t.closed }

-- `none` if serverTransport_->close() throws.
unfoldable pub stop_listen : Bool → BaseServer → Option BaseServer
stop_listen closes b =
    if not b.is_listen
    then some b
    else if closes
    then some (record b { is_listen = false })
    else none

-- What join waits for: each task is run to its end.
unfoldable pub join : List ℕ → Serving → Serving
unfolding finish
join [] t = t
join (task ∷ tasks) t = join tasks (finish task t)

-- What a throw from stopListen skips is the join.
abbrev pub joined : Option BaseServer → Serving → Serving
joined none t = t
joined (some b) t = join t.tasks (record t { base = b })

-- What follows the loop.
unfoldable pub shutdown : Bool → Serving → Serving
unfolding stop_listen join
shutdown closes t =
    if t.base.stop
    then (let r = joined (stop_listen closes t.base) t in
        let b = r.base in record r { base = record b { stop = false } })
    else t
