-- ===== src/Threaded.antt =====
-- sync/threaded_server.cpp: the loop of serve(), which starts a thread for each client, the tasks
-- that these threads run, and the shutdown. Whether listen and close succeed, what the processor
-- answers and how accepting and starting end are arguments. A client is a number, and so is its task,
-- whose number stands for its address.
-- `transport` says whether the server's socket is open, `started` lists the threads that run.
pub mod Leak
mod Examples
use async_thrift.Prelude.{
  ℕ, zero, suc, ◌+◌, List, [], ◌∷◌, ◌++◌, Bool, true, false, Option, none, some, leb, ◌==◌, not,
  if◌then◌else◌, length, count,
}
use async_thrift.ThreadPool.{BaseServer, new_base_server, start_listen, safe_stop_listen, clients}
use async_thrift.ThreadPool

pub record ThreadedServer : Type 0 where
  pub base : BaseServer
  pub transport : Bool
  pub tasks : List ℕ
  pub started : List ℕ
  pub closed : List ℕ

unfoldable pub new_server : ThreadedServer
unfolding new_base_server
new_server = record {
  base = new_base_server;
  transport = false;
  tasks = [];
  started = [];
  closed = [];
}

-- One erasure from the set.
unfoldable pub erase : ℕ → List ℕ → List ℕ
erase task [] = []
erase task (t ∷ ts) = let rest = erase task ts in if task == t then ts else t ∷ rest

-- What a round of Task::run comes to: process() answers, then peek(), or one of them throws.
pub data Round : Type 0 where
  served refused unread threw : Round

-- The loop of Task::run, which tests `stop` before each round: the requests that it has processed.
-- The rounds are those that the client's bytes lead to.
unfoldable pub run_rounds : (ℕ → Bool) → ℕ → List Round → ℕ
run_rounds stop i [] = 0
run_rounds stop i (served ∷ rounds) =
    let rest = run_rounds stop (suc i) rounds in if stop i then 0 else suc rest
run_rounds stop i (unread ∷ rounds) = if stop i then 0 else 1
run_rounds stop i (refused ∷ rounds) = 0
run_rounds stop i (threw ∷ rounds) = 0

-- The end of Task::run.
unfoldable pub finish : ℕ → ThreadedServer → ThreadedServer
unfolding erase
finish task s = record s {
  tasks = erase task s.tasks;
  started = erase task s.started;
  closed = task ∷ s.closed;
}

pub data Failure : Type 0 where
  transport_error thrift_error unknown_error : Failure

-- How the try block ends: the thread is started, or an exception comes before the task is inserted
-- or from start().
pub data Outcome : Type 0 where
  starts : Outcome
  fails_before : Failure → Outcome
  fails_to_start : Failure → Outcome

-- How a turn of the loop ends.
pub data Turned : Type 0 where
  goes_on returns breaks : ThreadedServer → Turned

abbrev pub handled : Failure → Option ℕ → ThreadedServer → Turned
handled transport_error client s = goes_on (record s { closed = clients client ++ s.closed })
handled thrift_error client s = goes_on (record s { closed = clients client ++ s.closed })
handled unknown_error client s = breaks (record s { closed = clients client ++ s.closed })

-- An insertion into the set, which has each task once.
abbrev pub insert : ℕ → List ℕ → List ℕ
insert task ts = if count task ts == 0 then task ∷ ts else ts

-- A task that is gone may have left its address to the next one.
abbrev pub insert_task : Option ℕ → ThreadedServer → ThreadedServer
insert_task none s = s
insert_task (some task) s = record s { tasks = insert task s.tasks }

abbrev pub handle_client : Outcome → Option ℕ → ThreadedServer → Turned
handle_client starts client s =
    let t = insert_task client s in goes_on (record t { started = clients client ++ t.started })
handle_client (fails_before failure) client s = handled failure client s
handle_client (fails_to_start failure) client s = handled failure client (insert_task client s)

-- listen() and close() on the server's socket, where startListen and safeStopListen call them.
abbrev pub listening : Bool → ThreadedServer → Bool × ThreadedServer
listening listens s =
    let (ok, b) = start_listen listens s.base in
    (
      ok,
      record s {
        base = b;
        transport = if s.base.is_listen then s.transport else if listens then true else s.transport;
      },
    )

abbrev pub silenced : Bool → ThreadedServer → ThreadedServer
silenced closes s = record s {
  base = safe_stop_listen closes s.base;
  transport = if s.base.is_listen then if closes then false else s.transport else s.transport;
}

abbrev pub listened : Bool × ThreadedServer → (ThreadedServer → Turned) → Turned
listened (true, s) more = more s
listened (false, s) more = returns s

unfoldable pub turn : ℕ → Bool → Bool → Outcome → Option ℕ → ThreadedServer → Turned
unfolding start_listen safe_stop_listen
turn worker_thread_count_max listens closes outcome client s =
    if leb worker_thread_count_max (length s.tasks)
    then goes_on (silenced closes s)
    else listened (listening listens s) (handle_client outcome client)

abbrev pub is_none : List ℕ → Bool
is_none [] = true
is_none (t ∷ ts) = false

-- What follows the loop; `none` while it waits for the tasks.
unfoldable pub shutdown : Bool → ThreadedServer → Option ThreadedServer
shutdown closes s =
    if s.base.stop
    then if is_none s.tasks
      then some (record s {
        base = record b { stop = false };
        transport = if closes then false else s.transport;
      })
      else none
    else some s
  where
    open s use {base as b}
