-- ===== src/ThreadPool.antt =====
-- event_loop/EventLoopThreadPool.hpp and event_loop/EventLoopThreadPool.cpp: the loops that a server
-- hands its connections to, in turn. A loop is its number.
pub mod Robin
pub mod Tests
use reactor_network_lib.Common.{
  ℕ, Bool, false, Outcome, List, [], Option, ok, if◌then◌else◌, ◌>>◌, some, suc, assert, ltb, none,
  ◌>>=◌, not, length, fault, ◌+◌, true, get_elem?, memory, zero, ◌++◌, leb, ◌∷◌,
}

pub record Pool : Type 0 where
  pub base_loop : ℕ
  pub started : Bool
  pub num_threads : ℕ
  pub next : ℕ
  pub threads : List ℕ
  pub loops : List ℕ

pub create : ℕ → Pool
create base_loop = record {
  base_loop = base_loop;
  started = false;
  num_threads = 0;
  next = 0;
  threads = [];
  loops = [];
}

pub set_thread_num : ℕ → Pool → Pool
set_thread_num n p = record p { num_threads = n }

-- One round of the loop in `start`: the thread object `t` is moved into the vector, which leaves the
-- pointer null, and then asked for its loop. `start_loop` is the loop that a thread creates.
start_one : (ℕ → ℕ) → ℕ → Pool → Outcome Pool
start_one start_loop i p =
    let t : Option ℕ = some i in
    let moved_from : Option ℕ = none in
    elim t [
      | none ↦ fault memory
      | some thread ↦
          let p' : Pool = record p { threads = p.threads ++ thread ∷ [] } in
          elim moved_from [
            | none ↦ fault memory
            | some self ↦ ok (record p' { loops = p'.loops ++ start_loop self ∷ [] })
          ]
    ]

start_from : (ℕ → ℕ) → ℕ → ℕ → Pool → Outcome Pool
start_from start_loop zero i p = ok p
start_from start_loop (suc n) i p = start_one start_loop i p >>= start_from start_loop n (i + 1)

pub start : (ℕ → ℕ) → Pool → Outcome Pool
unfolding start_one start_from
start start_loop p = do
  assert (not p.started)
  start_from start_loop p.num_threads 0 (record p { started = true })

-- The loop for the next connection, and the pool afterwards.
pub get_next_loop : Pool → Outcome (ℕ × Pool)
get_next_loop p =
    if ltb 0 (length p.loops)
    then (elim (get_elem? p.loops p.next) [
      | none ↦ fault memory
      | some loop ↦
          let next = p.next + 1 in
          ok (loop, record p { next = if leb (length p.loops) next then 0 else next })
    ])
    else ok (p.base_loop, p)
