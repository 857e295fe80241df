-- ===== src/EventLoop/Scheduling/Threads.antt =====
-- Timers asked for from another thread.
use reactor_network_lib.EventLoop.Scheduling.{
  Scheduler, Functor, perform, run_in_loop, add_timer, cancel, run_at, run_after, run_every,
  perform_all, do_pending_functors, adds, cancels, ℕ,
}
use reactor_network_lib.Time.{TimeStamp, stamp, new_timer, add_time}
use reactor_network_lib.Timers.{TimerQueue, Entry}
use reactor_network_lib.Timers.Clock.{add_timer_in_loop-timers, cancel_in_loop-timers}
use reactor_network_lib.Common.{
  ℕ, Outcome, List, ◌≡◌, ◌==◌, ok, false, ◌>>=◌, ◌++◌, ◌∷◌, Outcome-cases, true, inl, [], arith,
  inr, refl, ◌∙◌, ap, fault,
}

-- A call of the loop: the pointer of the timer, the time or the interval, and the closure.
pub data Request : Type 0 where
  at : ℕ → TimeStamp → ℕ → Request
  after : ℕ → ℕ → ℕ → Request
  every : ℕ → ℕ → ℕ → Request
  cancelling : ℕ → Request

pub request : ℕ → ℕ → Request → Scheduler → Outcome Scheduler
request thread clock (at id time cb) s = ok (run_at thread clock id time cb s).1
request thread clock (after id delay cb) s = do r ← run_after thread clock id delay cb s; ok r.1
request thread clock (every id interval cb) s = do
  r ← run_every thread clock id interval cb s
  ok r.1
request thread clock (cancelling id) s = ok (cancel thread clock id s)

-- The calls, each with what the clock says then.
pub requests : ℕ → List (ℕ × Request) → Scheduler → Outcome Scheduler
requests thread [] s = ok s
requests thread ((clock, r) ∷ rs) s = do s' ← request thread clock r s; requests thread rs s'

-- What the two ways have in common: the timers, in their order, and what still waits. The descriptor is
-- armed for a delay that the clock decides when the functor runs.
abbrev pub timers_of : Scheduler → List Entry × List Functor
timers_of s = (s.queue.timers, s.pending_functors)

abbrev pub view : Outcome Scheduler → Outcome (List Entry × List Functor)
view m = m >>= λ s. ok (timers_of s)

-- The functor of a call.
functor : ℕ → Request → Outcome Functor
functor clock (at id time cb) = ok (adds (new_timer id cb time 0))
functor clock (after id delay cb) = do
  time ← add_time (stamp clock) delay
  ok (adds (new_timer id cb time 0))
functor clock (every id interval cb) = do
  time ← add_time (stamp clock) interval
  ok (adds (new_timer id cb time interval))
functor clock (cancelling id) = ok (cancels id)

request_lem :
    (thread clock : ℕ) (r : Request) (s : Scheduler)
    → request thread clock r s ≡ (functor clock r >>= (λ f. ok (run_in_loop thread clock f s)))
unfolding request functor run_at run_after run_every add_timer cancel
request_lem thread clock (at id time cb) s = refl
request_lem thread clock (after id delay cb) s =
    elim (Outcome-cases (add_time (stamp clock) delay)) [
      | inl (time, made) ↦ rw made refl
      | inr (e, made) ↦ rw made refl
    ]
request_lem thread clock (every id interval cb) s =
    elim (Outcome-cases (add_time (stamp clock) interval)) [
      | inl (time, made) ↦ rw made refl
      | inr (e, made) ↦ rw made refl
    ]
request_lem thread clock (cancelling id) s = refl

-- What a functor does to the timers does not depend on the clock.
perform-timers :
    (c d : ℕ) (f : Functor) (q r : TimerQueue)
    → q.timers ≡ r.timers
    → (perform c f q).timers ≡ (perform d f r).timers
unfolding perform
perform-timers c d (adds t) q r same = add_timer_in_loop-timers c d t q r same
perform-timers c d (cancels x) q r same = cancel_in_loop-timers x q r same

perform_all-timers :
    (c d : ℕ) (fs : List Functor) (q r : TimerQueue)
    → q.timers ≡ r.timers
    → (perform_all c fs q).timers ≡ (perform_all d fs r).timers
unfolding perform_all
perform_all-timers c d [] q r same = same
perform_all-timers c d (f ∷ fs) q r same =
    perform_all-timers c d fs (perform c f q) (perform d f r) (perform-timers c d f q r same)

perform_all-snoc :
    (clock : ℕ) (fs : List Functor) (f : Functor) (q : TimerQueue)
    → perform_all clock (fs ++ f ∷ []) q ≡ perform clock f (perform_all clock fs q)
unfolding perform_all
perform_all-snoc clock [] f q = refl
perform_all-snoc clock (g ∷ fs) f q = perform_all-snoc clock fs f (perform clock g q)

-- The loop's own thread has done what the functors that wait would do.
abbrev IsAhead : ℕ → ℕ → Scheduler → Scheduler → Type 0
IsAhead own later s t =
    (s.thread_id ≡ own)
    × (t.thread_id ≡ own)
    × (t.pending_functors ≡ [])
    × ((perform_all later s.pending_functors s.queue).timers ≡ t.queue.timers)

-- One functor, from another thread and from the loop's own.
run_in_loop-IsAhead :
    (own other later clock : ℕ) (f : Functor) (s t : Scheduler)
    → own == other ≡ false
    → IsAhead own later s t
    → IsAhead own later (run_in_loop other clock f s) (run_in_loop own clock f t)
unfolding run_in_loop
run_in_loop-IsAhead own other later clock f s t apart (mine, yours, none_left, same) =
    let away : s.thread_id == other ≡ false = rw mine apart in
    let home : t.thread_id == own ≡ true = ground (arith, yours) in
    let all : (perform_all later (s.pending_functors ++ f ∷ []) s.queue).timers
        ≡ (perform clock f t.queue).timers =
      ap (λ q. q.timers) (perform_all-snoc later s.pending_functors f s.queue)
      ∙ perform-timers later clock f _ t.queue same in
    rw (away, home) (mine, yours, none_left, all)

requests_own :
    (own other later : ℕ) (rs : List (ℕ × Request)) (s t : Scheduler)
    → own == other ≡ false
    → IsAhead own later s t
    → view (requests other rs s >>= (λ s'. ok (do_pending_functors later s')))
      ≡ view (requests own rs t)
unfolding requests do_pending_functors
requests_own own other later [] s t apart (mine, yours, none_left, same) = rw (none_left, same) refl
requests_own own other later ((clock, r) ∷ rs) s t apart ahead =
    elim (Outcome-cases (functor clock r)) [
      | inl (f, made) ↦
          let there : request other clock r s ≡ ok (run_in_loop other clock f s) =
            request_lem other clock r s
            ∙ ap (λ o. o >>= (λ g. ok (run_in_loop other clock g s))) made in
          let here : request own clock r t ≡ ok (run_in_loop own clock f t) =
            request_lem own clock r t
            ∙ ap (λ o. o >>= (λ g. ok (run_in_loop own clock g t))) made in
          rw (there, here)
            (requests_own own other later rs (run_in_loop other clock f s)
              (run_in_loop own clock f t) apart
              (run_in_loop-IsAhead own other later clock f s t apart ahead))
      | inr (e, made) ↦
          let there : request other clock r s ≡ fault e =
            request_lem other clock r s
            ∙ ap (λ o. o >>= (λ g. ok (run_in_loop other clock g s))) made in
          let here : request own clock r t ≡ fault e =
            request_lem own clock r t
            ∙ ap (λ o. o >>= (λ g. ok (run_in_loop own clock g t))) made in
          rw (there, here) refl
    ]

-- Calls from another thread, whatever the clock says at each, that the loop performs at any time
-- afterwards leave the timers that the same calls at the same times from its own thread leave at once,
-- behind the functors that waited before, with their keys and in their order, and nothing waiting: also
-- where a delay is too long, which both report. When the descriptor is to fire is left out of this.
pub requests_lem :
    (other earlier later : ℕ) (rs : List (ℕ × Request)) (s : Scheduler)
    → s.thread_id == other ≡ false
    → view (requests other rs s >>= (λ s'. ok (do_pending_functors later s')))
      ≡ view (requests s.thread_id rs (do_pending_functors earlier s))
unfolding do_pending_functors
requests_lem other earlier later rs s apart =
    requests_own s.thread_id other later rs s (do_pending_functors earlier s) apart
      (refl, refl, refl, perform_all-timers later earlier s.pending_functors s.queue s.queue refl)
