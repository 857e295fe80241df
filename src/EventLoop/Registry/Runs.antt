-- ===== src/EventLoop/Registry/Runs.antt =====
-- Threads that make and destroy their loops.
use reactor_network_lib.EventLoop.Registry.{
  Registry, create_loop, destroy_loop, nobody, ℕ, Outcome, Bool,
}
use reactor_network_lib.Common.{
  ℕ, Outcome, List, Bool, ok, not, true, ◌≡◌, false, ◌∷◌, ◌&&◌, some, arith, fault, ◌>>=◌, refl,
  ◌==◌, [], ◌∙◌, if◌then◌else◌, none,
}

-- What a thread does: a new object gets a pointer that no other has.
pub data Event : Type 0 where
  makes : ℕ → ℕ → Event
  ends : ℕ → ℕ → Event

unfoldable pub step : Event → Registry → Outcome Registry
step (makes thread l) r = ok (create_loop thread l r)
step (ends thread l) r = destroy_loop thread l false r

pub run : List Event → Registry → Outcome Registry
run [] r = ok r
run (e ∷ es) r = do r' ← step e r; run es r'

-- A thread makes a loop that does not exist, where it has none, and destroys a loop that it has made.
unfoldable pub is_allowed : Event → Registry → Bool
is_allowed (makes thread l) r = not (r.alive l) && nobody (r.t_loop_in_this_thread thread)
is_allowed (ends thread l) r = r.alive l && (r.thread_of l == thread)

unfoldable pub are_allowed : List Event → Registry → Bool
unfolding is_allowed step
are_allowed [] r = true
are_allowed (e ∷ es) r =
    let rest : Bool = elim (step e r) [ ok r' ↦ are_allowed es r' | fault f ↦ false ] in
    is_allowed e r && rest

-- A thread has a loop exactly when that loop exists and the thread made it.
pub record IsValid (r : Registry) : Type 0 where
  pub listed :
      (t l : ℕ) → r.t_loop_in_this_thread t ≡ some l → (r.alive l ≡ true) × (r.thread_of l ≡ t)
  pub kept : (l : ℕ) → r.alive l ≡ true → r.t_loop_in_this_thread (r.thread_of l) ≡ some l

makes-IsValid :
    (t l : ℕ) (r : Registry)
    → IsValid r
    → is_allowed (makes t l) r ≡ true
    → IsValid (create_loop t l r) × ((create_loop t l r).fatal_lines ≡ r.fatal_lines)
unfolding create_loop is_allowed
makes-IsValid t l r v h =
    let free : nobody (r.t_loop_in_this_thread t) ≡ true = ground arith in
    let new : r.alive l ≡ false = ground arith in
    (
      rw free (record {
        listed = λ u k at. (ground (arith, v.listed u k), ground (arith, v.listed u k));
        kept = λ k up. ground (arith, v.kept k);
      }),
      ground (arith, free),
    )

ends-IsValid :
    (t l : ℕ) (r : Registry)
    → IsValid r
    → is_allowed (ends t l) r ≡ true
    → (r' : Registry) × (destroy_loop t l false r ≡ ok r')
      × IsValid r'
      × (r'.fatal_lines ≡ r.fatal_lines)
unfolding destroy_loop is_allowed
ends-IsValid t l r v h =
    let gone : Registry = record r {
      alive = λ q. if q == l then false else r.alive q;
      t_loop_in_this_thread = λ u. if u == t then none else r.t_loop_in_this_thread u;
    } in
    (
      gone,
      refl,
      record {
        listed = λ u k at. (ground (arith, v.listed u k), ground (arith, v.listed u k));
        kept = λ k up. ground (arith, v.kept k, v.kept l);
      },
      refl,
    )

-- Where no thread makes a second loop while it has one, and each destroys its own: a thread has a loop
-- exactly when the loop exists and the thread made it, and no fatal line is logged.
pub registry_lem :
    (es : List Event) (r : Registry)
    → IsValid r
    → are_allowed es r ≡ true
    → (r' : Registry) × (run es r ≡ ok r') × IsValid r' × (r'.fatal_lines ≡ r.fatal_lines)
unfolding run step are_allowed
registry_lem [] r v h = (r, refl, v, refl)
registry_lem (makes t l ∷ es) r v h =
    let (valid, quiet) = makes-IsValid t l r v (ground arith) in
    let (r', ran, valid', quiet') = registry_lem es (create_loop t l r) valid (ground arith) in
    (r', ran, valid', quiet' ∙ quiet)
registry_lem (ends t l ∷ es) r v h =
    let (r1, gone, valid, quiet) = ends-IsValid t l r v (ground arith) in
    let (r', ran, valid', quiet') = registry_lem es r1 valid (ground (arith, gone)) in
    (r', rw gone ran, valid', quiet' ∙ quiet)
