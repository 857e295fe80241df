-- ===== src/EventLoop/Round/Runs.antt =====
-- Which callbacks a round runs, for any poller that hands on what it should.
use reactor_network_lib.EventLoop.Round.{Polling, handle_active, round, ℕ}
use reactor_network_lib.EventLoop.Round.Calls.{
  SameHearing, SameHearing-trans, after_event, same_calls_of, calls_of,
}
use reactor_network_lib.Channel.{Channel, Call, handle_event}
use reactor_network_lib.Channel.Store.{store_at}
use reactor_network_lib.Common.{ℕ, List, ◌≡◌, ◌∷◌, [], ok, ap, ◌∙◌, refl}

-- What the loop relies on: for an answer that the kernel may give, `poll` fails no assertion, and what
-- the channels that it hands on run is what the answer calls for. A valid poller stays valid when a
-- channel's descriptor and index stay as they are.
pub record IsSound (P : Polling) : Type 1 where
  pub IsValid : P.State → Type 0
  pub Fits : P.Answer → P.State → Type 0
  pub due : ℕ → P.Answer → P.State → List (ℕ × List Call)
  pub store-put :
      (p : ℕ) (c : Channel) (s : P.State) (q : ℕ)
      → P.store (P.put p c s) q ≡ store_at (P.store s) p c q
  pub put-IsValid :
      (p : ℕ) (c : Channel) (s : P.State)
      → IsValid s
      → c.fd ≡ (P.store s p).fd
      → c.index ≡ (P.store s p).index
      → IsValid (P.put p c s)
  pub polls :
      (answer : P.Answer) (s : P.State)
      → IsValid s
      → Fits answer s
      → (active : List ℕ) × (t : P.State) × (P.poll answer s ≡ ok (active, t))
        × IsValid t
        × ((now : ℕ) → calls_of now (P.store t) active ≡ due now answer s)

module _ (P : Polling) (L : IsSound P) (act : ℕ → List Call → P.State → P.State) where
  -- Callbacks that leave the events received and the callbacks of each channel as they are.
  abbrev pub Gentle : Type 0
  Gentle =
      (p : ℕ) (calls : List Call) (s : P.State)
      → L.IsValid s
      → (q : ℕ) → SameHearing (P.store (act p calls s) q) (P.store s q)

  -- Callbacks that keep the poller valid.
  abbrev pub Lawful : Type 0
  Lawful = (p : ℕ) (calls : List Call) (s : P.State) → L.IsValid s → L.IsValid (act p calls s)

  module _ (gentle : Gentle) (lawful : Lawful) where
    attended : ℕ → ℕ → P.State → P.State
    attended now p s = P.put p (handle_event (P.store s p) now).1 s

    attended-IsValid : (now p : ℕ) (s : P.State) → L.IsValid s → L.IsValid (attended now p s)
    unfolding attended handle_event
    attended-IsValid now p s v = L.put-IsValid p _ s v refl refl

    attended-SameHearing :
        (now p : ℕ) (s : P.State) (q : ℕ) → SameHearing (P.store (attended now p s) q) (P.store s q)
    unfolding attended
    attended-SameHearing now p s q =
        rw (L.store-put p (handle_event (P.store s p) now).1 s q) (after_event now p (P.store s) q)

    after_callbacks : ℕ → ℕ → P.State → P.State
    after_callbacks now p s = act p (handle_event (P.store s p) now).0 (attended now p s)

    after_callbacks-SameHearing :
        (now p : ℕ) (s : P.State)
        → L.IsValid s
        → (q : ℕ) → SameHearing (P.store (after_callbacks now p s) q) (P.store s q)
    unfolding after_callbacks
    after_callbacks-SameHearing now p s v q =
        SameHearing-trans
          (gentle p (handle_event (P.store s p) now).0 (attended now p s)
            (attended-IsValid now p s v) q)
          (attended-SameHearing now p s q)

    after_callbacks-IsValid :
        (now p : ℕ) (s : P.State) → L.IsValid s → L.IsValid (after_callbacks now p s)
    unfolding after_callbacks
    after_callbacks-IsValid now p s v =
        lawful p (handle_event (P.store s p) now).0 (attended now p s) (attended-IsValid now p s v)

    active-calls :
        (now : ℕ) (ps : List ℕ) (s : P.State)
        → L.IsValid s
        → (handle_active P act now ps s).0 ≡ calls_of now (P.store s) ps
    unfolding handle_active after_callbacks attended
    active-calls now [] s v = refl
    active-calls now (p ∷ ps) s v =
        ap (λ l. (p, (handle_event (P.store s p) now).0) ∷ l)
          (active-calls now ps (after_callbacks now p s) (after_callbacks-IsValid now p s v)
            ∙ same_calls_of now ps (P.store (after_callbacks now p s)) (P.store s)
                (after_callbacks-SameHearing now p s v))

    active-IsValid :
        (now : ℕ) (ps : List ℕ) (s : P.State)
        → L.IsValid s
        → L.IsValid (handle_active P act now ps s).1
    unfolding handle_active after_callbacks attended
    active-IsValid now [] s v = v
    active-IsValid now (p ∷ ps) s v =
        active-IsValid now ps (after_callbacks now p s) (after_callbacks-IsValid now p s v)

    pub round_lem :
        (now : ℕ) (answer : P.Answer) (s : P.State)
        → L.IsValid s
        → L.Fits answer s
        → (s' : P.State) × (round P act now answer s ≡ ok (L.due now answer s, s')) × L.IsValid s'
    unfolding round
    round_lem now answer s v fits =
        let (active, t, ran, valid, heard) = L.polls answer s v fits in
        let after = (handle_active P act now active t).1 in
        (
          after,
          rw ran (ap (λ l. ok (l, after)) (active-calls now active t valid ∙ heard now)),
          active-IsValid now active t valid,
        )
