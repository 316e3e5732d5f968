-- ===== src/Threaded/Examples.antt =====
-- A server that listens and takes the client 7, whose thread does not start.
use async_thrift.Prelude.{◌≡◌, refl, [], ◌∷◌, true, false, some, none, arith}
use async_thrift.ThreadPool.{start_listen}
use async_thrift.ThreadPool
use async_thrift.Threaded.{
  ThreadedServer, thrift_error, turn, shutdown, listening, served, unread, run_rounds,
}
use async_thrift.Threaded.Leak.{none_yet, next, stops, start_failure-shutdown, shutdown-listening}

-- The server listens after a turn in which accept() fails.
abbrev listens : ThreadedServer
listens = record {
  base = record { is_listen = true; stop = false };
  transport = true;
  tasks = [];
  started = [];
  closed = [];
}

abbrev left : ThreadedServer
left = record listens { tasks = 7 ∷ []; closed = 7 ∷ [] }

start_failure-shutdown_example :
    shutdown true (record left { base = ThreadPool.stop left.base }) ≡ none
unfolding turn ThreadPool.stop
start_failure-shutdown_example =
    start_failure-shutdown 2 true true true thrift_error 7 listens {t = left} refl (omega arith)
      refl refl (next none_yet stops) (tt, tt) refl

shutdown-listening_example :
    let s = record listens { base = ThreadPool.stop listens.base } in
    (t : ThreadedServer) × (shutdown true s ≡ some t)
    × (t.transport ≡ false)
    × (listening true t ≡ (true, t))
unfolding ThreadPool.stop
shutdown-listening_example =
    shutdown-listening true (record listens { base = ThreadPool.stop listens.base }) refl refl refl

-- Two requests, and then the end of the client's bytes.
two_requests : run_rounds (λ i. false) 0 (served ∷ unread ∷ served ∷ []) ≡ 2
unfolding run_rounds
two_requests = refl
