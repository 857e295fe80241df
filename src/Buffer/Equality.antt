-- ===== src/Buffer/Equality.antt =====
-- The comparison of sequences of bytes decides equality.
use reactor_network_lib.Buffer.{same_bytes, ◌∷◌}
use reactor_network_lib.Common.{ℕ, List, ◌≡◌, true, ◌↔◌, arith, [], refl}

same_bytes-eq : (xs ys : List ℕ) → same_bytes xs ys ≡ true → xs ≡ ys
unfolding same_bytes
same_bytes-eq [] [] h = refl
same_bytes-eq [] (y ∷ ys) h = absurd (ground arith)
same_bytes-eq (x ∷ xs) [] h = absurd (ground arith)
same_bytes-eq (x ∷ xs) (y ∷ ys) h =
    let head : x ≡ y = ground arith in
    let tail : xs ≡ ys = same_bytes-eq xs ys (ground arith) in rw (head, tail) refl

same_bytes_self : (xs : List ℕ) → same_bytes xs xs ≡ true
unfolding same_bytes
same_bytes_self [] = refl
same_bytes_self (x ∷ xs) = ground (arith, same_bytes_self xs)

pub same_bytes_iff : (xs ys : List ℕ) → (same_bytes xs ys ≡ true) ↔ (xs ≡ ys)
same_bytes_iff xs ys = (same_bytes-eq xs ys, λ e. rw e (same_bytes_self ys))
