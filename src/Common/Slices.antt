-- ===== src/Common/Slices.antt =====
-- The part of a list between two indices.
use Prim.Native.Nat.{ℕ, ◌+◌, ◌-◌, ◌≤◌}
use mathlib.Core.Path.{◌≡◌, sym, ap, ◌∙◌}
use mathlib.Core.List.{List, ◌++◌}
use native.Mathlib.Omega.{arith}
use reactor_network_lib.Common.Lists.{
  length, take, drop, length-take, length-drop, take-append_le, take-append, drop-append_le,
  drop-drop, drop-take, take-length, take-take_le, take-append-drop,
}

module _ {ℓ} {A : Type ℓ} where
  -- The elements from the index `i` up to `j`.
  abbrev pub slice : ℕ → ℕ → List A → List A
  slice i j xs = take (j - i) (drop i xs)

  pub drop-take_le : (i j : ℕ) (xs : List A) → i ≤ j → drop i (take j xs) ≡ slice i j xs
  drop-take_le i j xs h =
      let e : j ≡ i + (j - i) = omega arith in
      ap (λ k. drop i (take k xs)) e ∙ drop-take i (j - i) xs

  pub length-slice : (i j : ℕ) (xs : List A) → i ≤ j → j ≤ length xs → length (slice i j xs) ≡ j - i
  length-slice i j xs h k = omega (arith, length-take (j - i) (drop i xs), length-drop i xs)

  -- A slice of the front part of a concatenation.
  pub slice-append :
      (i j : ℕ) (xs ys : List A) → i ≤ j → j ≤ length xs → slice i j (xs ++ ys) ≡ slice i j xs
  slice-append i j xs ys h k =
      rw (drop-append_le i xs ys (omega arith))
        (take-append_le (j - i) (drop i xs) ys (omega (arith, length-drop i xs)))

  -- Writing `ys` at `j` extends the slice that ends at `j` by `ys`.
  pub slice-write :
      (i j : ℕ) (xs ys zs : List A)
      → i ≤ j
      → j ≤ length xs
      → slice i (j + length ys) (take j xs ++ (ys ++ zs)) ≡ slice i j xs ++ ys
  slice-write i j xs ys zs h k =
      let front : length (take j xs) ≡ j = omega (arith, length-take j xs) in
      let part : length (drop i (take j xs)) ≡ j - i = omega (arith, length-drop i (take j xs)) in
      let split : j + length ys - i ≡ length (drop i (take j xs)) + length ys = omega arith in
      rw (drop-append_le i (take j xs) (ys ++ zs) (omega arith)) (
        rw split (
          take-append (length ys) (drop i (take j xs)) (ys ++ zs)
          ∙ ap (λ t. drop i (take j xs) ++ t)
              (take-append_le (length ys) ys zs (omega arith) ∙ take-length ys)
          ∙ ap (λ t. t ++ ys) (drop-take_le i j xs h)))

  pub drop-slice :
      (k i j : ℕ) (xs : List A) → k ≤ j - i → drop k (slice i j xs) ≡ slice (i + k) j xs
  drop-slice k i j xs h =
      let e : j - i - k ≡ j - (i + k) = omega arith in
      drop-take_le k (j - i) (drop i xs) h ∙ rw (e, drop-drop k i xs)

  pub slice-take_le :
      (i j n : ℕ) (xs : List A) → i ≤ j → j ≤ n → slice i j (take n xs) ≡ slice i j xs
  slice-take_le i j n xs h k =
      sym (drop-take_le i j (take n xs) h)
      ∙ ap (drop i) (take-take_le j n xs k)
      ∙ drop-take_le i j xs h

  -- Two slices that meet.
  pub slice-append-slice :
      (i j k : ℕ) (xs : List A) → i ≤ j → j ≤ k → slice i k xs ≡ slice i j xs ++ slice j k xs
  slice-append-slice i j k xs h l =
      let near : j - i ≤ k - i = omega arith in
      let far : i + (j - i) ≡ j = omega arith in
      sym (take-append-drop (j - i) (slice i k xs))
      ∙ ap (λ t. t ++ drop (j - i) (slice i k xs)) (take-take_le (j - i) (k - i) (drop i xs) near)
      ∙ ap (λ t. slice i j xs ++ t) (drop-slice (j - i) i k xs near ∙ ap (λ n. slice n k xs) far)
