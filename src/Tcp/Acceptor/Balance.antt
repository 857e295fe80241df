-- ===== src/Tcp/Acceptor/Balance.antt =====
-- What becomes of the descriptors that an acceptor receives.
use reactor_network_lib.Tcp.Acceptor.{
  Acceptor, Effect, Round, create, accept, ℕ, Option, close_fd, refuse, admit, accepts, closes,
  take_idle, opens, hands_over, note, Accepted, handle_read_once, listen, got, handle_read_all,
  logs_error, failed, set_new_connection_callback, is_emfile,
}
use reactor_network_lib.Common.{
  ℕ, Option, List, some, ◌≡◌, none, ◌∷◌, ◌+◌, arith, if◌then◌else◌, ◌==◌, [], ok, suc, refl,
  Bool-cases, inl, zero, inr, Bool, true, false,
}

abbrev pub tally : (Effect → ℕ) → List Effect → ℕ
tally weight [] = 0
tally weight (e ∷ es) = weight e + tally weight es

abbrev pub receipt : ℕ → Effect → ℕ
receipt x (accepts fd) = if fd == x then 1 else 0
receipt x (opens fd) = if fd == x then 1 else 0
receipt x _ = 0

abbrev pub release : ℕ → Effect → ℕ
release x (closes fd) = if fd == x then 1 else 0
release x (hands_over fd) = if fd == x then 1 else 0
release x _ = 0

abbrev pub holds : ℕ → Option ℕ → ℕ
holds x none = 0
holds x (some fd) = if fd == x then 1 else 0

-- Each descriptor has been received as often as it was closed or handed over, the one in hand and the
-- idle one apart.
abbrev pub Balanced : Option ℕ → Acceptor → Type 0
Balanced hand a =
    (x : ℕ)
    → tally (receipt x) a.effects ≡ tally (release x) a.effects + (holds x a.idle_fd + holds x hand)

refuse-Balanced : (r : Round) (a : Acceptor) → Balanced none a → Balanced none (refuse r a)
unfolding refuse close_fd take_idle
refuse-Balanced r a b x = ground (arith, b x)

admit-Balanced :
    (fd : ℕ) (r : Round) (a : Acceptor) → Balanced (some fd) a → Balanced none (admit fd r a)
unfolding admit
admit-Balanced fd r a b x = ground (arith, b x)

note_logs-Balanced :
    (hand : Option ℕ) (a : Acceptor) → Balanced hand a → Balanced hand (note logs_error a)
note_logs-Balanced hand a b x = ground (arith, b x)

accept-Balanced :
    (r : Accepted) (a : Acceptor)
    → Balanced none a
    → Balanced (elim r [ got fd ↦ some fd | failed e ↦ none ]) (accept r a)
unfolding accept
accept-Balanced (got fd) a b x = ground (arith, b x)
accept-Balanced (failed e) a b x = ground (arith, b x)

once-Balanced :
    (r : Round) (k : Accepted) (a : Acceptor)
    → r.accepted ≡ k
    → Balanced none a
    → Balanced none (handle_read_once r a)
unfolding handle_read_once
once-Balanced r (got fd) a e b =
    rw e (admit-Balanced fd r (accept (got fd) a) (accept-Balanced (got fd) a b))
once-Balanced r (failed n) a e b =
    let logged = note_logs-Balanced none (accept (failed n) a) (accept-Balanced (failed n) a b) in
    rw e (elim (Bool-cases (is_emfile n)) [
      | inl full ↦ rw full (refuse-Balanced r (note logs_error (accept (failed n) a)) logged)
      | inr other ↦ rw other logged
    ])

-- The rounds of a server that handles one connection at a time.
pub handle_reads : List Round → Acceptor → Acceptor
handle_reads [] a = a
handle_reads (r ∷ rs) a = handle_reads rs (handle_read_once r a)

handle_reads-Balanced :
    (rs : List Round) (a : Acceptor) → Balanced none a → Balanced none (handle_reads rs a)
unfolding handle_reads
handle_reads-Balanced [] a b = b
handle_reads-Balanced (r ∷ rs) a b =
    handle_reads-Balanced rs (handle_read_once r a) (once-Balanced r r.accepted a refl b)

start-Balanced :
    (idle : ℕ) (a : Acceptor)
    → create (some idle) ≡ ok a
    → Balanced none (listen (set_new_connection_callback a))
unfolding create listen set_new_connection_callback
start-Balanced idle a ran x = ground arith

-- From the constructor on, whatever the system calls return, every descriptor that the acceptor of a
-- server receives is closed or handed over once, but for the one that it keeps in reserve: also where
-- the process is out of descriptors, where polling fails, and where /dev/null cannot be opened again.
pub handle_reads_lem :
    (idle : ℕ) (a : Acceptor) (rs : List Round) (x : ℕ)
    → create (some idle) ≡ ok a
    → let a' = handle_reads rs (listen (set_new_connection_callback a)) in
      tally (receipt x) a'.effects ≡ tally (release x) a'.effects + holds x a'.idle_fd
handle_reads_lem idle a rs x ran = omega (
  arith,
  handle_reads-Balanced rs (listen (set_new_connection_callback a)) (start-Balanced idle a ran) x,
)

-- What the loop over all pending connections still has in hand when it ends: the descriptor 0, at which it ends.
abbrev pub dropped : List Round → Option ℕ
dropped [] = none
dropped (r ∷ rs) = elim r.accepted [
  | got zero ↦ some 0
  | got (suc fd) ↦ dropped rs
  | failed e ↦ let rest = dropped rs in if is_emfile e then rest else none
]

-- Whether one of the results of ::accept ends the loop.
abbrev pub ends : List Round → Bool
ends [] = false
ends (r ∷ rs) = elim r.accepted [
  | got zero ↦ true
  | got (suc fd) ↦ ends rs
  | failed e ↦ let rest = ends rs in if is_emfile e then rest else true
]

Handled : List Round → Acceptor → Type 0
Handled rs a = (a' : Acceptor) × (handle_read_all rs a ≡ some a') × Balanced (dropped rs) a'

all_step :
    (r : Round) (rs : List Round) (a : Acceptor) (k : Accepted)
    → r.accepted ≡ k
    → Balanced none a
    → ends (r ∷ rs) ≡ true
    → ((b : Acceptor) → Balanced none b → ends rs ≡ true → Handled rs b)
    → Handled (r ∷ rs) a
unfolding handle_read_all Handled admit-Balanced refuse-Balanced
all_step r rs a (got zero) e b over ih =
    (accept (got zero) a, ground (arith, e), rw e (accept-Balanced (got zero) a b))
all_step r rs a (got (suc fd)) e b over ih =
    let a1 = accept (got (suc fd)) a in
    let kept = admit-Balanced (suc fd) r a1 (accept-Balanced (got (suc fd)) a b) in
    let (a', ran, kept') = ih (admit (suc fd) r a1) kept (ground (arith, e)) in
    (a', ground (arith, e, ran), rw e kept')
all_step r rs a (failed n) e b over ih =
    let a1 = accept (failed n) a in
    let kept = accept-Balanced (failed n) a b in
    elim (Bool-cases (is_emfile n)) [
      | inl full ↦
          let (a', ran, kept') =
            ih (refuse r a1) (refuse-Balanced r a1 kept) (ground (arith, e, full)) in
          (a', ground (arith, e, full, ran), rw (e, full) kept')
      | inr other ↦ (a1, ground (arith, e, other), rw (e, other) kept)
    ]

-- Once ::accept returns the descriptor 0, or an error other than EMFILE, `handle_read_all` ends. It keeps
-- the same account but for the descriptor 0, which its loop takes for the end: it neither closes it nor
-- hands it over.
pub handle_read_all_lem :
    (rs : List Round) (a : Acceptor)
    → Balanced none a
    → ends rs ≡ true
    → (a' : Acceptor) × (handle_read_all rs a ≡ some a') × Balanced (dropped rs) a'
unfolding handle_read_all Handled
handle_read_all_lem [] a b over = absurd (ground arith)
handle_read_all_lem (r ∷ rs) a b over =
    all_step r rs a r.accepted refl b over (λ c d e. handle_read_all_lem rs c d e)
