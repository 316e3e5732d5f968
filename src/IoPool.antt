-- ===== src/IoPool.antt =====
-- async/io_service_pool.cpp. The services are numbered by their place in io_services_; a work
-- object keeps its service running. Threads are numbers, and the thread-specific pointer a map.
pub mod Turns
mod Examples
use async_thrift.Prelude.{
  ℕ, zero, suc, ◌+◌, ◌%◌, Option, none, some, List, [], ◌∷◌, Bool, true, false, ◌==◌, if◌then◌else◌,
}
use async_thrift.Map.{Map, find, insert}

pub record IoServicePool : Type 0 where
  pub size : ℕ
  pub works : ℕ
  pub next : ℕ
  pub tss : Map ℕ

-- The constructor: at least one service.
pub create : ℕ → IoServicePool
create pool_size = record {
  size = if pool_size == 0 then 1 else pool_size;
  works = 0;
  next = 0;
  tss = [];
}

pub set_tss_io_service : ℕ → ℕ → IoServicePool → IoServicePool
set_tss_io_service thread service p = record p { tss = insert thread service p.tss }

-- `none`: the pointer was never set, and the code dereferences null.
pub get_tss_io_service : ℕ → IoServicePool → Option ℕ
get_tss_io_service thread p = find thread p.tss

-- The threads of the group, thread `first + i` for service i.
pub start_threads : Bool → ℕ → ℕ → ℕ → IoServicePool → IoServicePool
start_threads enable_tss first i zero p = p
start_threads enable_tss first i (suc n) p =
    start_threads enable_tss first (suc i) n
      (if enable_tss then set_tss_io_service (first + i) i p else p)

-- `run`, up to the join.
pub run : Bool → ℕ → IoServicePool → IoServicePool
unfolding start_threads set_tss_io_service
run enable_tss first p =
    start_threads enable_tss first 0 p.size (record p { works = p.size; next = 0 })

pub stop : IoServicePool → IoServicePool
stop p = record p { works = 0; next = 0 }

-- get_io_service(): the index chosen, under the lock.
pub get_io_service : IoServicePool → ℕ × IoServicePool
get_io_service p =
    let next = p.next + 1 in (p.next, record p { next = if next == p.size then 0 else next })

-- get_io_service(index); the size is never 0.
pub get_io_service_at : ℕ → IoServicePool → ℕ
get_io_service_at index p = index % p.size
