-- ===== src/Timers/Cancel.antt =====
-- What `cancel` removes.
use mathlib.Core.List.{perm_middle}
use mathlib.Core.List.Perm
use reactor_network_lib.Common.{
  ◌≡◌, ℕ, List, none, Perm, ◌++◌, ◌∷◌, arith, ◌≢◌, some, [], if◌then◌else◌, refl, ◌==◌,
  Option-cases, Bool-cases, inl, inr,
}
use reactor_network_lib.Timers.{erase_key, cancel_in_loop, TimeStamp, TimerQueue, find_key, Entry}
use reactor_network_lib.Time.{TimeStamp, Timer}
use reactor_network_lib.Timers.Order.{IsValid, Above, Keyed, Above-mono}
use reactor_network_lib.Timers.Expiry.{NoneAt}

erase_key-Above : (n : ℕ) (k : TimeStamp) (xs : List Entry) → Above n xs → Above n (erase_key k xs)
unfolding erase_key
erase_key-Above n k [] h = tt
erase_key-Above n k (x ∷ xs) h =
    ground (arith, erase_key-Above x.0.val k xs h.1, Above-mono n x.0.val (erase_key k xs))

erase_key-Keyed : (k : TimeStamp) (xs : List Entry) → Keyed xs → Keyed (erase_key k xs)
unfolding erase_key
erase_key-Keyed k [] h = tt
erase_key-Keyed k (x ∷ xs) h = ground (arith, erase_key-Keyed k xs h.2)

erase_key-NoneAt : (k : TimeStamp) (xs : List Entry) → NoneAt k.val (erase_key k xs)
unfolding erase_key
erase_key-NoneAt k [] = tt
erase_key-NoneAt k (x ∷ xs) = ground (arith, erase_key-NoneAt k xs)

-- A cancellation keeps the map valid.
pub cancel_in_loop-IsValid : (q : TimerQueue) (x : ℕ) → IsValid q → IsValid (cancel_in_loop q x)
unfolding cancel_in_loop
cancel_in_loop-IsValid q x v = elim (Option-cases (find_key x q.timers)) [
  | inl absent ↦ rw (absent, cancel_in_loop) v
  | inr (k, found) ↦
      rw (found, cancel_in_loop)
        (record {
          ordered = erase_key-Above 0 k q.timers v.ordered;
          keyed = erase_key-Keyed k q.timers v.keyed;
        })
]

-- The entries of one time, in order.
abbrev pub at_key : ℕ → List Entry → List Entry
at_key n [] = []
at_key n (x ∷ xs) = let rest = at_key n xs in if x.0.val == n then x ∷ rest else rest

-- No timer has this id.
abbrev pub Absent : ℕ → List Entry → Type 0
Absent i [] = Unit {0}
Absent i (x ∷ xs) = (i ≢ x.1.id) × Absent i xs

find_key-Absent : (i : ℕ) (xs : List Entry) → Absent i xs → find_key i xs ≡ none
unfolding find_key
find_key-Absent i [] h = refl
find_key-Absent i (x ∷ xs) h = ground (arith, find_key-Absent i xs h.1)

find_key-first :
    (xs ys : List Entry) (k : TimeStamp) (t : Timer)
    → Absent t.id xs
    → find_key t.id (xs ++ (k, t) ∷ ys) ≡ some k
unfolding find_key
find_key-first [] ys k t h = ground arith
find_key-first (x ∷ xs) ys k t h = ground (arith, find_key-first xs ys k t h.1)

erase_key-split : (k : TimeStamp) (xs : List Entry) → Perm xs (at_key k.val xs ++ erase_key k xs)
unfolding erase_key
erase_key-split k [] = Perm.nil
erase_key-split k (x ∷ xs) = elim (Bool-cases (x.0.val == k.val)) [
  | inl here ↦ rw here (Perm.cons x (erase_key-split k xs))
  | inr other ↦ rw other (
      Perm.trans (Perm.cons x (erase_key-split k xs))
        (Perm.symm (perm_middle (at_key k.val xs) (erase_key k xs))))
]

-- Cancelling a timer that is in the map, the first of its id, removes every timer of the same
-- expiration; what is left has none of that time, and together with those removed it is the old
-- map.
pub cancel_in_loop_lem :
    (q : TimerQueue) (xs ys : List Entry) (k : TimeStamp) (t : Timer)
    → q.timers ≡ xs ++ (k, t) ∷ ys
    → Absent t.id xs
    → Perm q.timers (at_key k.val q.timers ++ (cancel_in_loop q t.id).timers)
      × NoneAt k.val (cancel_in_loop q t.id).timers
unfolding cancel_in_loop
cancel_in_loop_lem q xs ys k t split first =
    let found : find_key t.id q.timers ≡ some k = rw split (find_key-first xs ys k t first) in
    rw (found, cancel_in_loop) (erase_key-split k q.timers, erase_key-NoneAt k q.timers)

-- A timer that is not in the map is not looked for elsewhere: nothing happens.
pub cancel_in_loop-Absent : (q : TimerQueue) (x : ℕ) → Absent x q.timers → cancel_in_loop q x ≡ q
unfolding cancel_in_loop
cancel_in_loop-Absent q x h = rw (find_key-Absent x q.timers h, cancel_in_loop)
