-- ===== src/IoPool/Examples.antt =====
-- A pool of three services.
use async_thrift.Prelude.{◌+◌, ◌%◌, ◌≡◌, true, some, arith}
use async_thrift.IoPool.{create, run, get_io_service, get_tss_io_service}
use async_thrift.IoPool.Turns.{InRange, create-InRange, after_calls, get_io_service_turn, run_tss}

get_io_service_turn_example :
    ((get_io_service (after_calls 4 (create 3))).0 ≡ ((create 3).next + 4) % (create 3).size)
    × InRange (after_calls 4 (create 3))
get_io_service_turn_example = get_io_service_turn 4 (create 3) (create-InRange 3)

run_tss_example : get_tss_io_service (100 + 2) (run true 100 (create 3)) ≡ some 2
unfolding create
run_tss_example = run_tss 100 2 (create 3) (omega arith)
