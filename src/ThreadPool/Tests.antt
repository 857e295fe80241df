-- ===== src/ThreadPool/Tests.antt =====
-- A pool that wants two threads, on which the theorem is applied.
use reactor_network_lib.ThreadPool.{Pool, start, false}
use reactor_network_lib.ThreadPool.Robin.{start_lem}
use reactor_network_lib.Common.{◌≡◌, false, [], fault, memory, arith, refl}

abbrev two_wanted : Pool
two_wanted = record {
  base_loop = 0;
  started = false;
  num_threads = 2;
  next = 0;
  threads = [];
  loops = [];
}

start_lem_example : start (λ n. n) two_wanted ≡ fault memory
start_lem_example = start_lem (λ n. n) two_wanted refl (omega arith)
