-- ===== src/Tcp/Server/Serving/Steps.antt =====
-- One step of a server that serves its connections.
use reactor_network_lib.Tcp.Server.Serving.Answered.{placed_at, told_lem, answered-IsValid}
use reactor_network_lib.Tcp.Server.{Server, object_at, List}
use reactor_network_lib.Tcp.Server.Inv.{IsValid}
use reactor_network_lib.Tcp.Server.Runs
use reactor_network_lib.Tcp.Server.Runs.{arrivals, step-IsValid, arrives}
use reactor_network_lib.Tcp.Server.Serving.{Event, does, turns, step}
use reactor_network_lib.Tcp.Server.Serving.Objects.{waits, step-Kept}
use reactor_network_lib.Tcp.Connection.Stream.{stream}
use reactor_network_lib.Tcp.Connection.Answering.{Turn, IsPiece, IsSmall, small_IsPiece}
use reactor_network_lib.Tcp.Connection.Answering.Runs.{IsReady, Turned}
use reactor_network_lib.Tcp.Connection.Answering.Fresh.{input_of, output_of, turn_lem, fresh_size}
use reactor_network_lib.Common.{
  List, ℕ, [], length, ◌≡◌, ◌+◌, ◌∷◌, true, ok, ◌<◌, arith, max_size, inl, ap, ◌^◌, sym, ◌∙◌, inr,
  Bool-cases, refl, ◌==◌, if◌then◌else◌, false, ◌≤◌, append-nil, ◌++◌, Then, Then-all,
}

-- How many connections arrive, and how many bytes come in and go out.
abbrev pub newcomers : List Event → ℕ
newcomers [] = 0
newcomers (does e ∷ es) = arrivals (e ∷ []) + newcomers es
newcomers (turns _ _ ∷ es) = newcomers es

abbrev pub inputs : List Event → ℕ
inputs [] = 0
inputs (does e ∷ es) = inputs es
inputs (turns _ t ∷ es) = length (input_of t) + inputs es

module _ (answer : List ℕ → List ℕ) where
  abbrev pub outputs : List Event → ℕ
  outputs [] = 0
  outputs (does e ∷ es) = outputs es
  outputs (turns _ t ∷ es) = length (output_of answer t) + outputs es

  -- Each piece is one that a `readv` can bring when it comes in.
  abbrev pub IsPieceFor : Event → Server → Type 0
  IsPieceFor (does e) s = Unit {0}
  IsPieceFor (turns p t) s = IsPiece t (s.objects p)

  abbrev pub AllPieces : List Event → Server → Type 0
  AllPieces [] s = Unit {0}
  AllPieces (e ∷ es) s = IsPieceFor e s × Then (AllPieces es) (step answer e s)

  -- No piece is larger than the array on the stack.
  abbrev pub AllSmall : List Event → Type 0
  AllSmall [] = Unit {0}
  AllSmall (does e ∷ es) = AllSmall es
  AllSmall (turns p t ∷ es) = IsSmall t × AllSmall es

  pub small_AllPieces : (es : List Event) (s : Server) → AllSmall es → AllPieces es s
  small_AllPieces [] s h = tt
  small_AllPieces (does e ∷ es) s h =
      (tt, Then-all (AllPieces es) (step answer (does e) s) (λ s'. small_AllPieces es s' h))
  small_AllPieces (turns p t ∷ es) s h = (
    small_IsPiece t (s.objects p) h.0,
    Then-all (AllPieces es) (step answer (turns p t) s) (λ s'. small_AllPieces es s' h.1),
  )

  -- The server is valid, and a connection that waits for input is ready, with room for what is to come.
  pub record IsServing (es : List Event) (s : Server) : Type 0 where
    pub valid : IsValid s
    pub ready : (p : ℕ) → waits (s.objects p) ≡ true → IsReady (s.objects p)
    pub room_in :
        (p : ℕ)
        → waits (s.objects p) ≡ true
        → length (s.objects p).input_buffer.buffer + inputs es < max_size
    pub room_out :
        (p : ℕ)
        → waits (s.objects p) ≡ true
        → length (s.objects p).output_buffer.buffer + outputs es < max_size
    pub names : s.next_conn_id + newcomers es < 2 ^ 31
    pub fresh_in : fresh_size + inputs es < max_size
    pub fresh_out : fresh_size + outputs es < max_size

  -- The answers that a connection owes for an event.
  abbrev pub own : ℕ → Event → List ℕ
  own q (does e) = []
  own q (turns p t) = if p == q then output_of answer t else []

  -- A connection that waits for input after an event waited before, and its bytes are those of before and
  -- its own answers.
  abbrev pub Told : ℕ → Event → Server → Server → Type 0
  Told q e s s' =
      q < s.next_conn_id
      → waits (s'.objects q) ≡ true
      → (waits (s.objects q) ≡ true) × (stream (s'.objects q) ≡ stream (s.objects q) ++ own q e)

  unfoldable pub Stepped : Event → List Event → Server → Type 0
  Stepped e es s =
      (s' : Server) × (step answer e s ≡ ok s')
      × IsServing es s'
      × (s.next_conn_id ≤ s'.next_conn_id)
      × ((q : ℕ) → Told q e s s')

  does_lem :
      (e : Runs.Event) (es : List Event) (s : Server)
      → IsServing (does e ∷ es) s
      → Stepped (does e) es s
  unfolding step Stepped
  does_lem e es s v =
      let (s', ran, valid, next) = step-IsValid e [] s v.valid (omega (arith, v.names)) in
      let kept = step-Kept e s s' ran in
      (
        s',
        ran,
        record {
          valid = valid;
          ready = λ p h. elim (kept p h) [
            | inl same ↦ rw same (v.ready p (ap waits (sym same) ∙ h))
            | inr new ↦ new.0.ready
          ];
          room_in = λ p h. elim (kept p h) [
            | inl same ↦ rw same (v.room_in p (ap waits (sym same) ∙ h))
            | inr new ↦ omega (arith, new.0.input, v.fresh_in)
          ];
          room_out = λ p h. elim (kept p h) [
            | inl same ↦ rw same (v.room_out p (ap waits (sym same) ∙ h))
            | inr new ↦ omega (arith, new.0.output, v.fresh_out)
          ];
          names = omega (arith, next, v.names);
          fresh_in = v.fresh_in;
          fresh_out = v.fresh_out;
        },
        omega (arith, next),
        λ q old h. elim (kept q h) [
          | inl same ↦
              (ap waits (sym same) ∙ h, ap stream same ∙ sym (append-nil (stream (s.objects q))))
          | inr new ↦ absurd (omega (arith, new.1, old))
        ],
      )

  turns_lem :
      (p : ℕ) (t : Turn) (es : List Event) (s : Server)
      → IsServing (turns p t ∷ es) s
      → IsPiece t (s.objects p)
      → Stepped (turns p t) es s
  unfolding step Turned Stepped
  turns_lem p t es s v piece = elim (Bool-cases (waits (s.objects p))) [
    | inr deaf ↦ (
      s,
      rw deaf refl,
      record {
        valid = v.valid;
        ready = v.ready;
        room_in = λ q h. omega (arith, v.room_in q h);
        room_out = λ q h. omega (arith, v.room_out q h);
        names = v.names;
        fresh_in = omega (arith, v.fresh_in);
        fresh_out = omega (arith, v.fresh_out);
      },
      omega arith,
      λ q old h.
          (let other : p == q ≡ false = ground (arith, deaf, h) in
            (
              h,
              sym (append-nil (stream (s.objects q)))
                  ∙ ap (λ b. stream (s.objects q) ++ (if b then output_of answer t else []))
                      (sym other),
            )),
    )
    | inl hearing ↦
        let old = v.ready p hearing in
        let (c, ran, ready, same, ins, outs, hears_still) =
          turn_lem answer t (s.objects p) old piece (omega (arith, v.room_in p hearing))
            (omega (arith, v.room_out p hearing)) in
        let s' : Server = record s { objects = object_at s.objects p c } in
        (
          s',
          rw ran (ap (λ b. if b then ok s' else ok s) hearing),
          record {
            valid = answered-IsValid p c s v.valid old ready hears_still;
            ready = λ q h. elim (placed_at s.objects p c q) [
              | inl here ↦ rw here ready
              | inr apart ↦ rw apart (v.ready q (ap waits (sym apart) ∙ h))
            ];
            room_in = λ q h. elim (placed_at s.objects p c q) [
              | inl here ↦ rw here (omega (arith, v.room_in p hearing, ins))
              | inr apart ↦ rw apart (omega (arith, v.room_in q (ap waits (sym apart) ∙ h)))
            ];
            room_out = λ q h. elim (placed_at s.objects p c q) [
              | inl here ↦ rw here (omega (arith, v.room_out p hearing, outs))
              | inr apart ↦ rw apart (omega (arith, v.room_out q (ap waits (sym apart) ∙ h)))
            ];
            names = v.names;
            fresh_in = omega (arith, v.fresh_in);
            fresh_out = omega (arith, v.fresh_out);
          },
          omega arith,
          λ q before h. told_lem p q c s (output_of answer t) hearing same h,
        )
  ]

  pub step_lem :
      (e : Event) (es : List Event) (s : Server)
      → IsServing (e ∷ es) s
      → IsPieceFor e s
      → Stepped e es s
  step_lem (does e) es s v piece = does_lem e es s v
  step_lem (turns p t) es s v piece = turns_lem p t es s v piece
