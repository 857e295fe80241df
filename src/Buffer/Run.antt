-- ===== src/Buffer/Run.antt =====
-- A client's calls in order, on a buffer and on the queue of bytes that it promises to be.
use reactor_network_lib.Common.{
  ◌≡◌, List, ℕ, Outcome, ◌>>=◌, ok, length, ◌≤◌, ◌++◌, [], ◌+◌, ◌<◌, if◌then◌else◌, max_size, leb,
  refl, drop, fault, arith, assertion,
}
use reactor_network_lib.Buffer.{
  Buffer, ok, length, ◌∷◌, append, [], read_fd, extra_size, got, leb, retrieve, drop,
  retrieve_as_string,
}
use reactor_network_lib.Buffer.Inv.{IsValid, content}
use reactor_network_lib.Buffer.Refine.{append_refines, retrieve_refines}
use reactor_network_lib.Buffer.Receive.{read_fd_refines, retrieve_as_string_refines}

pub data Op : Type 0 where
  put : List ℕ → Op
  receive : List ℕ → Op
  skip : ℕ → Op
  drain : Op

-- A call, with the bytes that it hands out.
pub run_op : Op → Buffer → Outcome (List ℕ × Buffer)
run_op (put xs) b = do b' ← append b xs; ok ([], b')
run_op (receive xs) b = do (_, b') ← read_fd b (got xs); ok ([], b')
run_op (skip n) b = do b' ← retrieve b n; ok ([], b')
run_op drain b = retrieve_as_string b

pub run : List Op → Buffer → Outcome (List ℕ × Buffer)
run [] b = ok ([], b)
run (o ∷ os) b = do (xs, b') ← run_op o b; (ys, b'') ← run os b'; ok (xs ++ ys, b'')

-- The same calls on a list of bytes.
pub queue_op : Op → List ℕ → Outcome (List ℕ × List ℕ)
queue_op (put xs) q = ok ([], q ++ xs)
queue_op (receive xs) q = ok ([], q ++ xs)
queue_op (skip n) q = if leb n (length q) then ok ([], drop n q) else fault assertion
queue_op drain q = ok (q, [])

pub queue_run : List Op → List ℕ → Outcome (List ℕ × List ℕ)
queue_run [] q = ok ([], q)
queue_run (o ∷ os) q = do (xs, q') ← queue_op o q; (ys, q'') ← queue_run os q'; ok (xs ++ ys, q'')

-- The bytes that a call brings in.
abbrev pub volume_op : Op → ℕ
volume_op (put xs) = length xs
volume_op (receive xs) = length xs
volume_op (skip _) = 0
volume_op drain = 0

abbrev pub volume : List Op → ℕ
volume [] = 0
volume (o ∷ os) = volume_op o + volume os

-- Each piece is at most the array on the stack, which a `readv` can bring whatever room the vector has.
abbrev pub Bounded : List Op → Type 0
Bounded [] = Unit {0}
Bounded (receive xs ∷ os) = (length xs ≤ extra_size) × Bounded os
Bounded (_ ∷ os) = Bounded os

-- What of a run the client sees: the bytes handed out, and those left.
abbrev pub seen : Outcome (List ℕ × Buffer) → Outcome (List ℕ × List ℕ)
seen r = r >>= λ (xs, b). ok (xs, content b)

Bounded-tail : (o : Op) (os : List Op) → Bounded (o ∷ os) → Bounded os
Bounded-tail (put _) os h = h
Bounded-tail (receive _) os h = h.1
Bounded-tail (skip _) os h = h
Bounded-tail drain os h = h

run_op_refines :
    (o : Op) (os : List Op) (b : Buffer)
    → IsValid b
    → Bounded (o ∷ os)
    → length b.buffer + volume_op o < max_size
    → (seen (run_op o b) ≡ queue_op o (content b))
      × ((r : List ℕ × Buffer)
          → run_op o b ≡ ok r
          → IsValid r.1 × (length r.1.buffer ≤ length b.buffer + volume_op o))
unfolding run_op queue_op
run_op_refines (put xs) os b v h room =
    let (b', ran, valid, same, size) = append_refines b xs v (omega (arith, v.within)) in
    ground arith
run_op_refines (receive xs) os b v h room =
    let (b', ran, valid, same, size) = read_fd_refines b xs v (omega (arith, h)) room in
    ground arith
run_op_refines (skip n) os b v h room =
    let (b', ran, left) = retrieve_refines b n v in ground (arith, left)
run_op_refines drain os b v h room =
    let (b', ran, valid, empty, kept) = retrieve_as_string_refines b v in ground arith

seen-bind :
    (xs : List ℕ) (m : Outcome (List ℕ × Buffer))
    → seen (m >>= λ (ys, b). ok (xs ++ ys, b)) ≡ (seen m >>= λ (ys, q). ok (xs ++ ys, q))
seen-bind xs (ok r) = refl
seen-bind xs (fault e) = refl

run_step :
    (os : List Op) (m : Outcome (List ℕ × Buffer))
    → ((r : List ℕ × Buffer) → m ≡ ok r → seen (run os r.1) ≡ queue_run os (content r.1))
    → seen (m >>= λ (xs, b). run os b >>= λ (ys, b'). ok (xs ++ ys, b'))
      ≡ (seen m >>= λ (xs, q). queue_run os q >>= λ (ys, q'). ok (xs ++ ys, q'))
run_step os (ok (xs, b)) ih = rw (← ih (xs, b) refl) (seen-bind xs (run os b))
run_step os (fault e) ih = refl

-- On a valid buffer, for calls that bring in less than 2^63 bytes together with the vector and
-- read at most the array on the stack at a time: the bytes come out in the order in which they
-- went in, none lost and none added, and the calls fault exactly where a client skips more than
-- there is.
pub run_refines :
    (os : List Op) (b : Buffer)
    → IsValid b
    → Bounded os
    → length b.buffer + volume os < max_size
    → seen (run os b) ≡ queue_run os (content b)
unfolding run queue_run
run_refines [] b v h room = refl
run_refines (o ∷ os) b v h room =
    let (step, keeps) = run_op_refines o os b v h (omega arith) in
    rw (← step) (
      run_step os (run_op o b) (λ r e.
        let (valid, size) = keeps r e in
        run_refines os r.1 valid (Bounded-tail o os h) (omega arith)))
