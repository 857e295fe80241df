-- ===== src/Logging/Rounds.antt =====
-- What a round of the writer, and a line that is logged, leave of the text of each logger.
use reactor_network_lib.Logging.{
  LogInfo, LogWritter, Round, log, write, text, round, round_from, output, ℕ, goes_on, aborts,
}
use reactor_network_lib.Common.{
  ℕ, List, ◌≡◌, ◌++◌, ◌∷◌, if◌then◌else◌, ap, List-cases, ◌==◌, ◌∙◌, [], inl, sym, inr,
  append_assoc, refl, Bool-cases, arith, append-nil, ◌⊎◌, leb, true,
}

abbrev pub left_by : Round → LogWritter
left_by (goes_on w) = w
left_by (aborts w) = w

module _ (stamp_text : ℕ → List ℕ) where
  -- What is in the file, and what will be.
  abbrev pub record_of : ℕ → LogWritter → List ℕ
  record_of p w = (w.objects p).file ++ text stamp_text (w.objects p).container

  abbrev pub kept : ℕ → Round → List ℕ
  kept q r = record_of q (left_by r)

  pub text-append :
      (xs ys : List LogInfo) → text stamp_text (xs ++ ys) ≡ text stamp_text xs ++ text stamp_text ys
  unfolding text
  text-append [] ys = refl
  text-append (x ∷ xs) ys =
      ap (λ t. (stamp_text x.time_stamp ++ (x.context ++ 10 ∷ [])) ++ t) (text-append xs ys)
      ∙ sym (
          append_assoc (stamp_text x.time_stamp ++ (x.context ++ 10 ∷ [])) (text stamp_text xs)
            (text stamp_text ys))

  pub record_of-log :
      (p q : ℕ) (line : LogInfo) (w : LogWritter)
      → record_of q (log p line w)
        ≡ record_of q w ++ text stamp_text (if p == q then line ∷ [] else [])
  unfolding log text
  record_of-log p q line w = elim (Bool-cases (p == q)) [
    | inl same ↦
        let here : p ≡ q = ground (arith, same) in
        rw (same, here, text-append (w.objects q).container (line ∷ []))
          (sym (
            append_assoc (w.objects q).file (text stamp_text (w.objects q).container)
              (text stamp_text (line ∷ []))))
    | inr other ↦ rw other (sym (append-nil (record_of q w)))
  ]

  pub record_of-write :
      (p q : ℕ) (w : LogWritter) → record_of q (write stamp_text p w) ≡ record_of q w
  unfolding write output text
  record_of-write p q w = elim (Bool-cases (p == q)) [
    | inl same ↦
        let here : p ≡ q = ground (arith, same) in rw (same, here) (append-nil (record_of q w))
    | inr other ↦ rw other refl
  ]

  -- The rest of a round after the loggers that have lines, or none.
  round_from-cons :
      (p : ℕ) (ps : List ℕ) (w : LogWritter)
      → (round_from stamp_text (p ∷ ps) w ≡ round_from stamp_text ps w)
        ⊎ ((leb 6 (w.objects p).state ≡ true)
              × (round_from stamp_text (p ∷ ps) w ≡ aborts (write stamp_text p w))
            ⊎ (round_from stamp_text (p ∷ ps) w ≡ round_from stamp_text ps (write stamp_text p w)))
  unfolding round_from
  round_from-cons p ps w = elim (List-cases (w.objects p).container) [
    | inl empty ↦ inl (ground (arith, empty))
    | inr (line, lines, some_lines) ↦ elim (Bool-cases (leb 6 (w.objects p).state)) [
      | inl fatal ↦ inr (inl (fatal, ground (arith, some_lines, fatal)))
      | inr mild ↦ inr (inr (ground (arith, some_lines, mild)))
    ]
  ]

  record_of-round_from :
      (ps : List ℕ) (q : ℕ) (w : LogWritter) → kept q (round_from stamp_text ps w) ≡ record_of q w
  unfolding round_from
  record_of-round_from [] q w = refl
  record_of-round_from (p ∷ ps) q w = elim (round_from-cons p ps w) [
    | inl e ↦ ap (kept q) e ∙ record_of-round_from ps q w
    | inr (inl (fatal, e)) ↦ ap (kept q) e ∙ record_of-write p q w
    | inr (inr e) ↦
        ap (kept q) e ∙ (record_of-round_from ps q (write stamp_text p w) ∙ record_of-write p q w)
  ]

  pub record_of-round : (q : ℕ) (w : LogWritter) → kept q (round stamp_text w) ≡ record_of q w
  unfolding round
  record_of-round q w = elim (Bool-cases w.running) [
    | inl on ↦
        ap (λ b. kept q (if b then round_from stamp_text w.loggers w else goes_on w)) on
        ∙ record_of-round_from w.loggers q w
    | inr off ↦ ap (λ b. kept q (if b then round_from stamp_text w.loggers w else goes_on w)) off
  ]

-- The logger that has ended the program: it is fatal, and none of its lines waits.
abbrev pub IsEndedBy : ℕ → LogWritter → Type 0
IsEndedBy p w = (leb 6 (w.objects p).state ≡ true) × ((w.objects p).container ≡ [])

module _ (stamp_text : ℕ → List ℕ) where
  write-IsEndedBy :
      (p : ℕ) (w : LogWritter)
      → leb 6 (w.objects p).state ≡ true
      → IsEndedBy p (write stamp_text p w)
  unfolding write output
  write-IsEndedBy p w fatal = (ground (arith, fatal), ground arith)

  round_from-IsEndedBy :
      (ps : List ℕ) (w w' : LogWritter)
      → round_from stamp_text ps w ≡ aborts w'
      → (p : ℕ) × IsEndedBy p w'
  unfolding round_from
  round_from-IsEndedBy [] w w' h = absurd (ground arith)
  round_from-IsEndedBy (p ∷ ps) w w' h = elim (round_from-cons stamp_text p ps w) [
    | inl e ↦ round_from-IsEndedBy ps w w' (sym e ∙ h)
    | inr (inl (fatal, e)) ↦
        let same : write stamp_text p w ≡ w' = ap left_by (sym e ∙ h) in
        let (grave, empty) = write-IsEndedBy p w fatal in
        (
          p,
          (
            ap (λ v. leb 6 (v.objects p).state) (sym same) ∙ grave,
            ap (λ v. (v.objects p).container) (sym same) ∙ empty,
          ),
        )
    | inr (inr e) ↦ round_from-IsEndedBy ps (write stamp_text p w) w' (sym e ∙ h)
  ]

  pub round-IsEndedBy :
      (w w' : LogWritter) → round stamp_text w ≡ aborts w' → (p : ℕ) × IsEndedBy p w'
  unfolding round
  round-IsEndedBy w w' h = elim (Bool-cases w.running) [
    | inl on ↦
        round_from-IsEndedBy w.loggers w w'
          (ap (λ b. if b then round_from stamp_text w.loggers w else goes_on w) (sym on) ∙ h)
    | inr off ↦ absurd (ground (arith, off, h))
  ]
