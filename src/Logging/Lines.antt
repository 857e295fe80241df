-- ===== src/Logging/Lines.antt =====
-- Whatever the threads log, turn after turn of the writer, and what becomes of the lines.
use reactor_network_lib.Logging.{
  LogInfo, LogWritter, Round, log, write, text, round, destroy, output, ℕ, goes_on, aborts,
  stop_run, create,
}
use reactor_network_lib.Common.{
  ℕ, List, ◌≡◌, ◌++◌, ◌∷◌, if◌then◌else◌, ap, ◌==◌, ◌∙◌, [], inl, sym, inr, append_assoc, refl,
  arith, append-nil, ◌⊎◌, leb, true,
}
use reactor_network_lib.Logging.Rounds.{
  record_of, kept, text-append, record_of-log, record_of-write, record_of-round, round-IsEndedBy,
  IsEndedBy,
}

-- What the threads of a program do to its loggers.
pub data Event : Type 0 where
  logs : ℕ → LogInfo → Event
  turns : Event
  destroys : ℕ → Event

abbrev pub line_for : ℕ → Event → List LogInfo
line_for q (logs p line) = if p == q then line ∷ [] else []
line_for q turns = []
line_for q (destroys p) = []

module _ (stamp_text : ℕ → List ℕ) where
  pub step : Event → LogWritter → Round
  step (logs p line) w = goes_on (log p line w)
  step turns w = round stamp_text w
  step (destroys p) w = goes_on (destroy stamp_text p w)

  pub run : List Event → LogWritter → Round
  unfolding step
  run [] w = goes_on w
  run (e ∷ es) w = elim (step e w) [ goes_on w' ↦ run es w' | aborts w' ↦ aborts w' ]

  -- The lines that a logger is given before the program aborts.
  pub given : ℕ → List Event → LogWritter → List LogInfo
  unfolding step
  given q [] w = []
  given q (e ∷ es) w =
      let rest : List LogInfo = elim (step e w) [ goes_on w' ↦ given q es w' | aborts w' ↦ [] ] in
      line_for q e ++ rest

  abbrev rest_of : ℕ → List Event → Round → List LogInfo
  rest_of q es r = elim r [ goes_on w ↦ given q es w | aborts w ↦ [] ]

  run-cons :
      (e : Event) (es : List Event) (w : LogWritter) (q : ℕ) (r : Round)
      → step e w ≡ r
      → ((w' : LogWritter)
          → kept stamp_text q (run es w')
            ≡ record_of stamp_text q w' ++ text stamp_text (given q es w'))
      → kept stamp_text q (run (e ∷ es) w) ≡ kept stamp_text q r ++ text stamp_text (rest_of q es r)
  unfolding run text
  run-cons e es w q (goes_on w') h ih =
      ap (λ x. kept stamp_text q (elim x [ goes_on v ↦ run es v | aborts v ↦ aborts v ])) h ∙ ih w'
  run-cons e es w q (aborts w') h ih =
      ap (λ x. kept stamp_text q (elim x [ goes_on v ↦ run es v | aborts v ↦ aborts v ])) h
      ∙ sym (append-nil (record_of stamp_text q w'))

  step_lem :
      (e : Event) (w : LogWritter) (q : ℕ)
      → kept stamp_text q (step e w) ≡ record_of stamp_text q w ++ text stamp_text (line_for q e)
  unfolding step text destroy stop_run
  step_lem (logs p line) w q = record_of-log stamp_text p q line w
  step_lem turns w q = record_of-round stamp_text q w ∙ sym (append-nil (record_of stamp_text q w))
  step_lem (destroys p) w q =
      record_of-write stamp_text p q (stop_run w) ∙ sym (append-nil (record_of stamp_text q w))

  record_of-run :
      (es : List Event) (w : LogWritter) (q : ℕ)
      → kept stamp_text q (run es w) ≡ record_of stamp_text q w ++ text stamp_text (given q es w)
  unfolding run given text
  record_of-run [] w q = sym (append-nil (record_of stamp_text q w))
  record_of-run (e ∷ es) w q =
      run-cons e es w q (step e w) refl (λ w'. record_of-run es w' q)
      ∙ (ap (λ t. t ++ text stamp_text (rest_of q es (step e w))) (step_lem e w q)
          ∙ (append_assoc (record_of stamp_text q w) (text stamp_text (line_for q e)) _
              ∙ ap (λ t. record_of stamp_text q w ++ t)
                  (sym (text-append stamp_text (line_for q e) (rest_of q es (step e w))))))

  Round-cases :
      (r : Round) → ((w : LogWritter) × (r ≡ goes_on w)) ⊎ ((w : LogWritter) × (r ≡ aborts w))
  Round-cases (goes_on w) = inl (w, refl)
  Round-cases (aborts w) = inr (w, refl)

  run-IsEndedBy :
      (es : List Event) (w w' : LogWritter) → run es w ≡ aborts w' → (p : ℕ) × IsEndedBy p w'
  unfolding run step
  run-IsEndedBy [] w w' h = absurd (ground arith)
  run-IsEndedBy (logs p line ∷ es) w w' h = run-IsEndedBy es (log p line w) w' h
  run-IsEndedBy (destroys p ∷ es) w w' h = run-IsEndedBy es (destroy stamp_text p w) w' h
  run-IsEndedBy (turns ∷ es) w w' h = elim (Round-cases (round stamp_text w)) [
    | inl (v, e) ↦
        run-IsEndedBy es v w'
          (ap (λ x. elim x [ goes_on u ↦ run es u | aborts u ↦ aborts u ]) (sym e) ∙ h)
    | inr (v, e) ↦
        round-IsEndedBy stamp_text w w'
          (e ∙ (ap (λ x. elim x [ goes_on u ↦ run es u | aborts u ↦ aborts u ]) (sym e) ∙ h))
  ]

  -- Whatever the threads log and however often the writer turns, what the file of a new logger holds and
  -- what waits for it are together the text of the lines that the logger was given, in their order. Where
  -- the program goes on, the destructor of the logger leaves them all in the file, none lost, repeated
  -- or moved. Where a round ends the program, some fatal logger has all its lines in its file: what was
  -- there or waited before the run, and what the logger was given in it.
  pub lines_lem :
      (es : List Event) (q level : ℕ) (w : LogWritter)
      → let c = create q level w in
        (kept stamp_text q (run es c) ≡ text stamp_text (given q es c))
        × (((w' : LogWritter) × (run es c ≡ goes_on w')
              × (((destroy stamp_text q w').objects q).file ≡ text stamp_text (given q es c)))
            ⊎ ((w' : LogWritter) × (run es c ≡ aborts w')
                × ((p : ℕ) × (leb 6 (w'.objects p).state ≡ true)
                    × ((w'.objects p).file
                        ≡ record_of stamp_text p c ++ text stamp_text (given p es c)))))
  unfolding create text destroy write output stop_run
  lines_lem es q level w =
      let same : q == q ≡ true = ground arith in
      let c = create q level w in
      let empty : record_of stamp_text q c ≡ [] = rw same refl in
      let all : kept stamp_text q (run es c) ≡ text stamp_text (given q es c) =
        record_of-run es c q ∙ ap (λ t. t ++ text stamp_text (given q es c)) empty in
      (
        all,
        elim (Round-cases (run es c)) [
          | inl (w', e) ↦ inl (w', e, rw same (ap (kept stamp_text q) (sym e) ∙ all))
          | inr (w', e) ↦
              let (p, (fatal, written)) = run-IsEndedBy es c w' e in
              inr (
                w',
                e,
                (
                  p,
                  fatal,
                  sym (append-nil (w'.objects p).file)
                      ∙ (ap (λ l. (w'.objects p).file ++ text stamp_text l) (sym written)
                          ∙ (ap (kept stamp_text p) (sym e) ∙ record_of-run es c p)),
                ),
              )
        ],
      )
