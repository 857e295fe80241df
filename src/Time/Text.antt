-- ===== src/Time/Text.antt =====
-- The text of a time before a line of the log (logger/logger.cpp) and in the trace of the timers
-- (time_utils/TimerQueue.cpp). A time is its count of nanoseconds since 1970; `strftime` is what the C
-- library prints for a second, with `[%F %T`.
use reactor_network_lib.Decimal.{decimal, scan, scan-decimal}
use reactor_network_lib.Common.{
  ℕ, ◌/◌, List, ◌%◌, ◌++◌, ◌≡◌, ◌∷◌, [], arith, ◌∙◌, ap, sym, drop, refl,
}

abbrev pub milliseconds : ℕ → ℕ
milliseconds t = t / 1_000_000 % 1000

module _ (strftime : ℕ → List ℕ) where
  -- `ms.count()` is printed without a width, so that the fill character does nothing.
  pub get_current_time : ℕ → List ℕ
  get_current_time t =
      strftime (t / 1_000_000_000) ++ 46 ∷ (decimal (milliseconds t) ++ 93 ∷ 32 ∷ [])

  pub to_string : ℕ → List ℕ
  to_string t = strftime (t / 1_000_000_000) ++ 46 ∷ (decimal (milliseconds t) ++ 93 ∷ 32 ∷ [])

  append_left : (xs ys zs : List ℕ) → xs ++ ys ≡ xs ++ zs → ys ≡ zs
  append_left [] ys zs h = h
  append_left (x ∷ xs) ys zs h = append_left xs ys zs (ground arith)

  -- Two times of the same second have the same text only in the same millisecond.
  pub get_current_time-injective :
      (t u : ℕ)
      → t / 1_000_000_000 ≡ u / 1_000_000_000
      → get_current_time t ≡ get_current_time u
      → t / 1_000_000 ≡ u / 1_000_000
  unfolding get_current_time
  get_current_time-injective t u second same =
      let ends : List ℕ = 93 ∷ 32 ∷ [] in
      let tail =
        append_left (strftime (t / 1_000_000_000)) (46 ∷ (decimal (milliseconds t) ++ ends))
          (46 ∷ (decimal (milliseconds u) ++ ends))
          (same ∙ ap (λ n. strftime n ++ 46 ∷ (decimal (milliseconds u) ++ ends)) (sym second)) in
      let digits : decimal (milliseconds t) ++ ends ≡ decimal (milliseconds u) ++ ends =
        ap (λ l. drop 1 l) tail in
      let read =
        sym (scan-decimal (milliseconds t) ends refl)
        ∙ (ap (scan 0) digits ∙ scan-decimal (milliseconds u) ends refl) in
      let ms : milliseconds t ≡ milliseconds u = ap (λ p. p.0) read in omega (arith, ms, second)
