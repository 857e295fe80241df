-- ===== src/ThreadPool/Robin.antt =====
-- How a pool starts, and which loop comes next.
use reactor_network_lib.Common.{
  ℕ, ◌≡◌, ◌<◌, false, ◌+◌, ok, suc, length, [], fault, memory, get_elem?, drop_of_lt, ◌-◌, true,
  some, arith, refl, if◌then◌else◌, leb, lt_of_get_elem?, ◌⊎◌, inl, inr,
}
use reactor_network_lib.ThreadPool.{Pool, get_next_loop, start}

get_next_loop_lem :
    (p : Pool) {x : ℕ}
    → get_elem? p.loops p.next ≡ some x
    → get_next_loop p
      ≡ ok (x, record p { next = if leb (length p.loops) (p.next + 1) then 0 else p.next + 1 })
unfolding get_next_loop
get_next_loop_lem p h = ground (arith, lt_of_get_elem? p.loops p.next h)

pub get_next_loop_base : (p : Pool) → p.loops ≡ [] → get_next_loop p ≡ ok (p.base_loop, p)
unfolding get_next_loop
get_next_loop_base p none_there = rw none_there refl

-- `start` of a pool that is not started and has one thread or more to start follows a null
-- pointer, whatever `start_loop` does: it calls it on a pointer that it has moved from.
pub start_lem :
    (start_loop : ℕ → ℕ) (p : Pool)
    → p.started ≡ false
    → 0 < p.num_threads
    → start start_loop p ≡ fault memory
unfolding start
start_lem start_loop p fresh h =
    let e : p.num_threads ≡ suc (p.num_threads - 1) = omega arith in rw (fresh, e) refl

-- With no thread it starts, and every connection goes to the base loop.
pub start_alone :
    (start_loop : ℕ → ℕ) (p : Pool)
    → p.started ≡ false
    → p.loops ≡ []
    → p.num_threads ≡ 0
    → (p' : Pool) × (start start_loop p ≡ ok p') × (get_next_loop p' ≡ ok (p.base_loop, p'))
unfolding start get_next_loop
start_alone start_loop p fresh no_loops h =
    (record p { started = true }, ground (arith, h), ground arith)

-- The next loop is one of the pool's, if it has any.
abbrev pub InTurn : Pool → Type 0
InTurn p = (p.loops ≡ []) ⊎ (p.next < length p.loops)

-- From then on the pool always has a loop to hand out.
pub get_next_loop-InTurn :
    (p : Pool)
    → InTurn p
    → (l : ℕ) × (p' : Pool) × (get_next_loop p ≡ ok (l, p'))
      × InTurn p'
      × (p'.loops ≡ p.loops)
      × (p'.base_loop ≡ p.base_loop)
unfolding get_next_loop
get_next_loop-InTurn p (inl none_there) = (p.base_loop, p, ground arith, inl none_there, refl, refl)
get_next_loop-InTurn p (inr within) =
    let (x, here, split) = drop_of_lt p.loops p.next within in
    let next = if leb (length p.loops) (p.next + 1) then 0 else p.next + 1 in
    (x, record p { next = next }, get_next_loop_lem p here, inr (ground arith), refl, refl)
