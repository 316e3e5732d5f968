-- ===== src/ThreadPool/Examples.antt =====
-- The client 7 arrives at a server with room for tasks.
use async_thrift.ThreadPool.History.{begins, turns, stopped, Serves-served}
use async_thrift.Prelude.{refl, ◌∷◌, ℕ, ◌≡◌, [], true, false, some, count}
use async_thrift.ThreadPool.{added, new_base_server, shutdown, Serving, turn}
use async_thrift.ThreadPool.Turns.{served}

-- A client is accepted and becomes a task.
Serves-served_example :
    let t : Serving = record {
      base = record { is_listen = true; stop = false };
      tasks = 7 ∷ [];
      closed = [];
    } in
    ((j : ℕ) → served j t ≡ count j (7 ∷ []))
    × (let r = shutdown true (stopped t) in
        (r.tasks ≡ [])
        × ((j : ℕ) → count j r.closed ≡ count j (7 ∷ []))
        × (r.base.is_listen ≡ false)
        × (r.base.stop ≡ false))
unfolding turn new_base_server
Serves-served_example = Serves-served (turns 2 5 true true added (some 7) begins refl)
