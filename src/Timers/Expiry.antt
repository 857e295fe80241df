-- ===== src/Timers/Expiry.antt =====
-- What `handle_read` does with the timers whose time has come.
use mathlib.Core.List.{perm_middle}
use mathlib.Core.List.Perm
use reactor_network_lib.Common.{
  ◌≡◌, ℕ, List, true, ◌≢◌, arith, ok, ◌/◌, ◌++◌, ◌≤◌, false, fault, ◌+◌, ◌<◌, [], Perm, assertion,
  ◌*◌, refl, if◌then◌else◌, Bool-cases, inl, ◌∷◌, ◌∙◌, inr,
}
use reactor_network_lib.Timers.{
  lower_bound, get_expired, reinsert, Entry, after_lower_bound, TimeStamp, TimerQueue, before,
  insert,
}
use reactor_network_lib.Time.{TimeStamp, stamp, int_mod, Timer, restart}
use reactor_network_lib.Timers.Order.{
  Above, IsValid, AllBefore, before-append-lower_bound, before-AllBefore, lower_bound-Above,
  insert-IsValid, insert-perm,
}

-- No entry has exactly this key.
abbrev pub NoneAt : ℕ → List Entry → Type 0
NoneAt n [] = Unit {0}
NoneAt n (x ∷ xs) = (x.0.val ≢ n) × NoneAt n xs

after_lower_bound_passes :
    (now : TimeStamp) (xs : List Entry)
    → NoneAt now.val xs
    → after_lower_bound now (lower_bound now xs) ≡ true
unfolding lower_bound after_lower_bound
after_lower_bound_passes now [] h = refl
after_lower_bound_passes now (x ∷ xs) h = ground (arith, after_lower_bound_passes now xs h.1)

lower_bound-NoneAt :
    (now : TimeStamp) (xs : List Entry) → NoneAt now.val xs → NoneAt now.val (lower_bound now xs)
unfolding lower_bound
lower_bound-NoneAt now [] h = tt
lower_bound-NoneAt now (x ∷ xs) h = ground (arith, lower_bound-NoneAt now xs h.1)

-- On a map in order with no timer due at exactly `now`, `get_expired` does not assert: it takes
-- out the timers that are due before `now`, and the others, all later than `now`, stay in order.
pub get_expired_lem :
    (q : TimerQueue) (now : TimeStamp)
    → Above 0 q.timers
    → NoneAt now.val q.timers
    → let q' : TimerQueue = record q { timers = lower_bound now q.timers } in
      (get_expired q now ≡ ok (before now q.timers, q'))
      × (before now q.timers ++ q'.timers ≡ q.timers)
      × AllBefore now.val (before now q.timers)
      × Above now.val q'.timers
      × NoneAt now.val q'.timers
unfolding get_expired
get_expired_lem q now h none_at = (
  rw (after_lower_bound_passes now q.timers none_at),
  before-append-lower_bound now q.timers,
  before-AllBefore now q.timers,
  (lower_bound-Above 0 now q.timers h).1,
  lower_bound-NoneAt now q.timers none_at,
)

Above-le : (n : ℕ) (xs ys : List Entry) (e : Entry) → Above n (xs ++ e ∷ ys) → n ≤ e.0.val
Above-le n [] ys e h = h.0
Above-le n (x ∷ xs) ys e h = omega (arith, Above-le x.0.val xs ys e h.1)

after_lower_bound_fails :
    (now : TimeStamp) (n : ℕ) (xs ys : List Entry) (e : Entry)
    → Above n (xs ++ e ∷ ys)
    → e.0.val ≡ now.val
    → after_lower_bound now (lower_bound now (xs ++ e ∷ ys)) ≡ false
unfolding lower_bound after_lower_bound
after_lower_bound_fails now n [] ys e h due = ground arith
after_lower_bound_fails now n (x ∷ xs) ys e h due =
    ground
      (arith, Above-le x.0.val xs ys e h.1, after_lower_bound_fails now x.0.val xs ys e h.1 due)

-- On a map in order that has a timer due at exactly `now`, the assertion of `get_expired` fails.
pub get_expired_asserts :
    (q : TimerQueue) (now : TimeStamp) (xs ys : List Entry) (e : Entry)
    → Above 0 q.timers
    → q.timers ≡ xs ++ e ∷ ys
    → e.0.val ≡ now.val
    → get_expired q now ≡ fault assertion
unfolding get_expired
get_expired_asserts q now xs ys e h split due =
    rw (split, after_lower_bound_fails now 0 xs ys e (rw (← split) h) due)

-- The entry under which `reset` puts a repeating timer back.
abbrev pub renew : Timer → TimeStamp → Entry
renew t now =
    let when : TimeStamp = stamp (now.val + t.interval / 1000 * 1000) in
    (when, record t { expiration = when })

abbrev pub renewed : List Entry → TimeStamp → List Entry
renewed [] now = []
renewed ((k, t) ∷ es) now =
    let rest = renewed es now in if t.repeats then renew t now ∷ rest else rest

-- Each interval is below 2^31 microseconds.
abbrev pub Fits : List Entry → Type 0
Fits [] = Unit {0}
Fits (x ∷ xs) = (x.1.interval / 1000 < int_mod) × Fits xs

restart_repeats :
    (t : Timer) (now : TimeStamp)
    → t.repeats ≡ true
    → t.interval / 1000 < int_mod
    → restart t now ≡ ok (renew t now).1
unfolding restart
restart_repeats t now h fits = ground arith

reinsert_repeats :
    (k : TimeStamp) (t : Timer) (es : List Entry) (now : TimeStamp) (q : TimerQueue)
    → t.repeats ≡ true
    → t.interval / 1000 < int_mod
    → (reinsert ((k, t) ∷ es) now q ≡ reinsert es now (insert q (renew t now).1).1)
      × (renewed ((k, t) ∷ es) now ≡ renew t now ∷ renewed es now)
unfolding reinsert
reinsert_repeats k t es now q h fits = ground (arith, restart_repeats t now h fits)

reinsert_once :
    (k : TimeStamp) (t : Timer) (es : List Entry) (now : TimeStamp) (q : TimerQueue)
    → t.repeats ≡ false
    → (reinsert ((k, t) ∷ es) now q ≡ reinsert es now q)
      × (renewed ((k, t) ∷ es) now ≡ renewed es now)
unfolding reinsert
reinsert_once k t es now q h = ground arith

-- On a valid map, for timers with intervals below 2^31 microseconds, the loop of `reset` puts
-- every repeating timer back, under the time an interval after `now`, and no other; the map stays
-- valid and loses nothing.
pub reinsert_lem :
    (es : List Entry) (now : TimeStamp) (q : TimerQueue)
    → IsValid q
    → Fits es
    → (q' : TimerQueue) × (reinsert es now q ≡ ok q')
      × IsValid q'
      × Perm q'.timers (renewed es now ++ q.timers)
reinsert_lem [] now q v fits = (q, unfold reinsert in refl, v, Perm.refl q.timers)
reinsert_lem ((k, t) ∷ es) now q v fits = elim (Bool-cases t.repeats) [
  | inl again ↦
      let (step, list) = reinsert_repeats k t es now q again fits.0 in
      let (q', ran, valid, perm) =
        reinsert_lem es now (insert q (renew t now).1).1 (insert-IsValid q (renew t now).1 v refl)
          fits.1 in
      let added = Perm.append (Perm.refl (renewed es now)) (insert-perm q (renew t now).1) in
      (
        q',
        step ∙ ran,
        valid,
        rw list (Perm.trans perm (Perm.trans added (perm_middle (renewed es now) q.timers))),
      )
  | inr once ↦
      let (step, list) = reinsert_once k t es now q once in
      let (q', ran, valid, perm) = reinsert_lem es now q v fits.1 in
      (q', step ∙ ran, valid, rw list perm)
]
