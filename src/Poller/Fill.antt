-- ===== src/Poller/Fill.antt =====
-- The loop of `fill_active_channels`.
use reactor_network_lib.Poller.{Poller, PollFd, fill_active_channels, fd_of, List, ℕ}
use reactor_network_lib.Channel.{Events, any_event, set_revents}
use reactor_network_lib.Channel.Store.{store_at, Store}
use reactor_network_lib.Common.{
  Outcome, List, ℕ, ◌≡◌, ◌∙◌, ◌∷◌, Option, true, arith, ok, pos, [], refl, if◌then◌else◌, ◌++◌, ◌+◌,
  some, append-nil, none, Bool-cases, inl, false, ◌==◌, inr, ap, ◌-◌, sym, append_assoc,
}

abbrev pub marks : List PollFd → ℕ
marks [] = 0
marks (f ∷ fs) = (if any_event f.revents then 1 else 0) + marks fs

-- The channels of the marked entries, in their order.
abbrev pub ready : (ℕ → Option ℕ) → List PollFd → List ℕ
ready channels [] = []
ready channels (f ∷ fs) =
    let rest = ready channels fs in
    if any_event f.revents
    then elim (channels (fd_of f.fd)) [ none ↦ rest | some p ↦ p ∷ rest ]
    else rest

-- The channels once the marked entries have given them their events received.
abbrev pub receive : (ℕ → Option ℕ) → PollFd → Store → Store
receive channels f store =
    if any_event f.revents
    then elim (channels (fd_of f.fd)) [
      | none ↦ store
      | some p ↦ store_at store p (set_revents (store p) f.revents)
    ]
    else store

abbrev pub delivered : (ℕ → Option ℕ) → List PollFd → Store → Store
delivered channels [] store = store
delivered channels (f ∷ fs) store = delivered channels fs (receive channels f store)

-- A marked entry is of a channel that is bound to its descriptor.
unfoldable pub Bound : PollFd → Poller → Type 0
Bound f s =
    any_event f.revents ≡ true
    → (fd : ℕ) × (p : ℕ) × (f.fd ≡ pos fd) × (s.channels fd ≡ some p) × ((s.store p).fd ≡ fd)

unfoldable pub AllBound : List PollFd → Poller → Type 0
unfolding Bound
AllBound [] s = Unit {0}
AllBound (f ∷ fs) s = Bound f s × AllBound fs s

abbrev received : ℕ → Events → Poller → Poller
received p e s = record s { store = store_at s.store p (set_revents (s.store p) e) }

fd_received :
    (p : ℕ) (e : Events) (s : Poller) (q : ℕ) → ((received p e s).store q).fd ≡ (s.store q).fd
unfolding set_revents
fd_received p e s q = ground arith

received-AllBound :
    (fs : List PollFd) (p : ℕ) (e : Events) (s : Poller)
    → AllBound fs s
    → AllBound fs (received p e s)
unfolding AllBound Bound
received-AllBound [] p e s h = tt
received-AllBound (f ∷ fs) p e s h = (
  λ m. (let (fd, q, a, b, c) = h.0 m in (fd, q, a, b, fd_received p e s q ∙ c)),
  received-AllBound fs p e s h.1,
)

pub marks_none :
    (channels : ℕ → Option ℕ) (fs : List PollFd) → marks fs ≡ 0 → ready channels fs ≡ []
marks_none channels [] h = refl
marks_none channels (f ∷ fs) h = ground (arith, marks_none channels fs)

pub delivered_none :
    (channels : ℕ → Option ℕ) (fs : List PollFd) (store : Store)
    → marks fs ≡ 0
    → delivered channels fs store ≡ store
delivered_none channels [] store h = refl
delivered_none channels (f ∷ fs) store h =
    let miss : any_event f.revents ≡ false = ground arith in
    rw miss (delivered_none channels fs store (ground (arith, miss)))

-- One marked entry: the last one ends the loop.
fill-cons :
    (m n fd p : ℕ) (f : PollFd) (fs : List PollFd) (s : Poller) (active : List ℕ)
    → m - 1 ≡ n
    → any_event f.revents ≡ true
    → f.fd ≡ pos fd
    → s.channels fd ≡ some p
    → (s.store p).fd ≡ fd
    → fill_active_channels m (f ∷ fs) s active ≡ (
        if n == 0
        then ok (active ++ p ∷ [], received p f.revents s)
        else fill_active_channels n fs (received p f.revents s) (active ++ p ∷ []))
unfolding fill_active_channels
fill-cons m n fd p f fs s active one hit at bound same_fd =
    let same : fd == fd ≡ true = ground arith in rw (hit, at, bound, same_fd, same, one) refl

fill_skip :
    (n : ℕ) (f : PollFd) (fs : List PollFd) (s : Poller) (active : List ℕ)
    → any_event f.revents ≡ false
    → fill_active_channels n (f ∷ fs) s active ≡ fill_active_channels n fs s active
unfolding fill_active_channels
fill_skip n f fs s active miss = rw miss refl

ready-cons :
    (fd p : ℕ) (f : PollFd) (fs : List PollFd) (channels : ℕ → Option ℕ)
    → any_event f.revents ≡ true
    → f.fd ≡ pos fd
    → channels fd ≡ some p
    → ready channels (f ∷ fs) ≡ p ∷ ready channels fs
ready-cons fd p f fs channels hit at bound = rw (hit, at, bound) refl

delivered-cons :
    (fd p : ℕ) (f : PollFd) (fs : List PollFd) (s : Poller)
    → any_event f.revents ≡ true
    → f.fd ≡ pos fd
    → s.channels fd ≡ some p
    → delivered s.channels (f ∷ fs) s.store ≡ delivered s.channels fs (received p f.revents s).store
delivered-cons fd p f fs s hit at bound = rw (hit, at, bound) refl

-- `fill_active_channels` ends with the channels of the marked entries, all given their events.
unfoldable pub Filled : List PollFd → Poller → List ℕ → Type 0
Filled fs s active =
    fill_active_channels (marks fs) fs s active
    ≡ ok (active ++ ready s.channels fs, record s { store = delivered s.channels fs s.store })

fill_hit :
    (fd p : ℕ) (f : PollFd) (fs : List PollFd) (s : Poller) (active : List ℕ)
    → any_event f.revents ≡ true
    → f.fd ≡ pos fd
    → s.channels fd ≡ some p
    → (s.store p).fd ≡ fd
    → Filled fs (received p f.revents s) (active ++ p ∷ [])
    → Filled (f ∷ fs) s active
unfolding Filled
fill_hit fd p f fs s active hit at bound same_fd ran =
    let one : marks (f ∷ fs) - 1 ≡ marks fs = ground (arith, hit) in
    let began = fill-cons (marks (f ∷ fs)) (marks fs) fd p f fs s active one hit at bound same_fd in
    let t : Poller = received p f.revents s in
    let target : List ℕ → Store → Outcome (List ℕ × Poller) =
      λ l st. ok (active ++ l, record s { store = st }) in
    let ends =
      ap (λ l. target l (delivered s.channels (f ∷ fs) s.store))
        (ready-cons fd p f fs s.channels hit at bound)
      ∙ ap (target (p ∷ ready s.channels fs)) (delivered-cons fd p f fs s hit at bound) in
    elim (Bool-cases (marks fs == 0)) [
      | inl last ↦
          let none_left : marks fs ≡ 0 = ground (arith, last) in
          began
          ∙ (rw last refl
              ∙ (ap (target (p ∷ [])) (sym (delivered_none s.channels fs t.store none_left))
                  ∙ (ap (λ l. target (p ∷ l) (delivered s.channels fs t.store))
                        (sym (marks_none s.channels fs none_left))
                      ∙ sym ends)))
      | inr more ↦
          began
          ∙ (rw more refl
              ∙ (ran
                  ∙ (ap (λ l. ok (l, record s { store = delivered s.channels fs t.store }))
                        (append_assoc active (p ∷ []) (ready s.channels fs))
                      ∙ sym ends)))
    ]

fill_miss :
    (f : PollFd) (fs : List PollFd) (s : Poller) (active : List ℕ)
    → any_event f.revents ≡ false
    → Filled fs s active
    → Filled (f ∷ fs) s active
unfolding Filled
fill_miss f fs s active miss ran =
    let none_here : marks (f ∷ fs) ≡ marks fs = ground (arith, miss) in
    fill_skip (marks (f ∷ fs)) f fs s active miss
    ∙ (ap (λ n. fill_active_channels n fs s active) none_here ∙ (ran ∙ rw miss refl))

pub fill_active_channels_lem :
    (fs : List PollFd) (s : Poller) (active : List ℕ) → AllBound fs s → Filled fs s active
unfolding fill_active_channels AllBound Bound Filled
fill_active_channels_lem [] s active h = ap (λ l. ok (l, s)) (sym (append-nil active))
fill_active_channels_lem (f ∷ fs) s active h = elim (Bool-cases (any_event f.revents)) [
  | inl hit ↦
      let (fd, p, at, bound, same_fd) = h.0 hit in
      fill_hit fd p f fs s active hit at bound same_fd (
        fill_active_channels_lem fs (received p f.revents s) (active ++ p ∷ [])
          (received-AllBound fs p f.revents s h.1))
  | inr miss ↦ fill_miss f fs s active miss (fill_active_channels_lem fs s active h.1)
]
