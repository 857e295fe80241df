-- ===== src/Timers/Order.antt =====
-- The multimap stays in order, and each entry under the time at which its timer expires.
use mathlib.Core.List.Perm
use reactor_network_lib.Common.{
  ◌≡◌, ℕ, List, ◌∷◌, ◌≤◌, true, Perm, arith, Bool-cases, inl, inr, ◌<◌, [], ◌++◌, refl,
}
use reactor_network_lib.Timers.{
  TimerQueue, multimap_insert, insert, Entry, Timer, add_timer_in_loop, before, lower_bound,
}
use reactor_network_lib.Time.{Timer, earlier, TimeStamp}

-- The times do not fall along the list, and none is before `n`.
abbrev pub Above : ℕ → List Entry → Type 0
Above n [] = Unit {0}
Above n (x ∷ xs) = (n ≤ x.0.val) × Above x.0.val xs

-- Each entry's key is a real time, that at which its timer expires.
abbrev pub Keyed : List Entry → Type 0
Keyed [] = Unit {0}
Keyed (x ∷ xs) = (x.0 ≡ x.1.expiration) × (x.0.valid ≡ true) × Keyed xs

pub record IsValid (q : TimerQueue) : Type 0 where
  pub ordered : Above 0 q.timers
  pub keyed : Keyed q.timers

pub Above-mono : (m n : ℕ) (xs : List Entry) → m ≤ n → Above n xs → Above m xs
Above-mono m n [] h a = tt
Above-mono m n (x ∷ xs) h a = (omega arith, a.1)

multimap_insert-Above :
    (n : ℕ) (e : Entry) (xs : List Entry)
    → Above n xs
    → n ≤ e.0.val
    → Above n (multimap_insert e xs)
unfolding multimap_insert
multimap_insert-Above n e [] h k = (k, tt)
multimap_insert-Above n e (x ∷ xs) h k = ground (arith, multimap_insert-Above x.0.val e xs h.1)

multimap_insert-Keyed :
    (e : Entry) (xs : List Entry)
    → Keyed xs
    → e.0 ≡ e.1.expiration
    → e.0.valid ≡ true
    → Keyed (multimap_insert e xs)
unfolding multimap_insert
multimap_insert-Keyed e [] h k l = (k, l, tt)
multimap_insert-Keyed e (x ∷ xs) h k l = ground (arith, multimap_insert-Keyed e xs h.2 k l)

-- `insert` keeps every timer and adds the new one.
pub multimap_insert-perm : (e : Entry) (xs : List Entry) → Perm (multimap_insert e xs) (e ∷ xs)
unfolding multimap_insert
multimap_insert-perm e [] = Perm.refl (e ∷ [])
multimap_insert-perm e (x ∷ xs) = elim (Bool-cases (earlier e.0 x.0)) [
  | inl sooner ↦ rw sooner (Perm.refl (e ∷ x ∷ xs))
  | inr later ↦ rw later (Perm.trans (Perm.cons x (multimap_insert-perm e xs)) (Perm.swap e x xs))
]

pub insert-perm :
    (q : TimerQueue) (t : Timer) → Perm (insert q t).1.timers ((t.expiration, t) ∷ q.timers)
unfolding insert
insert-perm q t = multimap_insert-perm (t.expiration, t) q.timers

pub insert-IsValid :
    (q : TimerQueue) (t : Timer) → IsValid q → t.expiration.valid ≡ true → IsValid (insert q t).1
unfolding insert
insert-IsValid q t v h = record {
  ordered = multimap_insert-Above 0 (t.expiration, t) q.timers v.ordered (omega arith);
  keyed = multimap_insert-Keyed (t.expiration, t) q.timers v.keyed refl h;
}

-- Adding a timer with a real expiration to a valid map keeps the map valid, with every other timer
-- in it.
pub add_timer_in_loop-IsValid :
    (q : TimerQueue) (t : Timer) (clock : ℕ)
    → IsValid q
    → t.expiration.valid ≡ true
    → IsValid (add_timer_in_loop q t clock)
      × Perm (add_timer_in_loop q t clock).timers ((t.expiration, t) ∷ q.timers)
unfolding add_timer_in_loop
add_timer_in_loop-IsValid q t clock v h = elim (Bool-cases (insert q t).0) [
  | inl first ↦ rw first (
    let w = insert-IsValid q t v h in record { ordered = w.ordered; keyed = w.keyed },
    insert-perm q t,
  )
  | inr behind ↦ rw behind (insert-IsValid q t v h, insert-perm q t)
]

pub before-append-lower_bound :
    (now : TimeStamp) (xs : List Entry) → before now xs ++ lower_bound now xs ≡ xs
unfolding before lower_bound
before-append-lower_bound now [] = refl
before-append-lower_bound now (x ∷ xs) = ground (arith, before-append-lower_bound now xs)

-- The keys of a list of entries are all before a time, or all after it.
abbrev pub AllBefore : ℕ → List Entry → Type 0
AllBefore n [] = Unit {0}
AllBefore n (x ∷ xs) = (x.0.val < n) × AllBefore n xs

pub before-AllBefore : (now : TimeStamp) (xs : List Entry) → AllBefore now.val (before now xs)
unfolding before
before-AllBefore now [] = tt
before-AllBefore now (x ∷ xs) = ground (arith, before-AllBefore now xs)

pub lower_bound-Above :
    (n : ℕ) (now : TimeStamp) (xs : List Entry)
    → Above n xs
    → Above n (lower_bound now xs) × Above now.val (lower_bound now xs)
unfolding lower_bound
lower_bound-Above n now [] h = (tt, tt)
lower_bound-Above n now (x ∷ xs) h =
    ground (arith, lower_bound-Above x.0.val now xs h.1, Above-mono n x.0.val (lower_bound now xs))

pub lower_bound-Keyed : (now : TimeStamp) (xs : List Entry) → Keyed xs → Keyed (lower_bound now xs)
unfolding lower_bound
lower_bound-Keyed now [] h = tt
lower_bound-Keyed now (x ∷ xs) h = ground (arith, lower_bound-Keyed now xs h.2)
