-- ===== src/Poller/Ready.antt =====
-- What `poll` hands to the loop.
use reactor_network_lib.Poller.{Poller, PollFd, mark, poll, returned, fd_of, List, ℕ}
use reactor_network_lib.Poller.Inv.{IsValid}
use reactor_network_lib.Channel.{Events, any_event, set_revents}
use reactor_network_lib.Poller.Delivery.{mark-AllApart, AllApart, delivered_at, delivered_marked}
use reactor_network_lib.Common.{
  List, ℕ, ◌≡◌, Bool, ◌∷◌, true, arith, ok, pos, [], refl, if◌then◌else◌, not, ◌+◌, some,
  Bool-cases, ◌&&◌, is_neg, inl, false, inr, suc, ℤ, get_elem?, ltb, negsuc, ap, sym, ◌∙◌,
}
use reactor_network_lib.Poller.Fill.{
  delivered, delivered_none, marks, ready, Bound, AllBound, Filled, fill_active_channels_lem,
  marks_none,
}

-- What ::poll documents of its answer: one set of events for each entry, none for one whose descriptor
-- is negative.
abbrev pub is_answer : List Events → List PollFd → Bool
is_answer [] [] = true
is_answer (e ∷ es) (f ∷ fs) = not (any_event e && is_neg f.fd) && is_answer es fs
is_answer _ _ = false

-- How many entries it has marked.
abbrev pub marked : List Events → ℕ
marked [] = 0
marked (e ∷ es) = (if any_event e then 1 else 0) + marked es

fd_of-pos : (n : ℤ) → is_neg n ≡ false → n ≡ pos (fd_of n)
fd_of-pos (pos n) h = refl
fd_of-pos (negsuc n) h = absurd (ground arith)

-- The entries of a valid poller, with an answer of ::poll, are bound.
mark-AllBound :
    (es : List Events) (fs : List PollFd) (s : Poller)
    → is_answer es fs ≡ true
    → ((i : ℕ) (f : PollFd)
        → get_elem? fs i ≡ some f
        → (p : ℕ) × (s.channels (fd_of f.fd) ≡ some p) × ((s.store p).fd ≡ fd_of f.fd))
    → AllBound (mark es fs) s
unfolding AllBound Bound
mark-AllBound [] [] s fits h = tt
mark-AllBound [] (f ∷ fs) s fits h = absurd (ground arith)
mark-AllBound (e ∷ es) [] s fits h = tt
mark-AllBound (e ∷ es) (f ∷ fs) s fits h = (
  λ hit.
      (let (p, bound, same) = h 0 f refl in
        (fd_of f.fd, p, fd_of-pos f.fd (ground (arith, hit)), bound, same)),
  mark-AllBound es fs s (ground arith) (λ i g at. h (suc i) g at),
)

marks-mark :
    (es : List Events) (fs : List PollFd) → is_answer es fs ≡ true → marks (mark es fs) ≡ marked es
marks-mark [] [] fits = refl
marks-mark [] (f ∷ fs) fits = absurd (ground arith)
marks-mark (e ∷ es) [] fits = absurd (ground arith)
marks-mark (e ∷ es) (f ∷ fs) fits = ground (arith, marks-mark es fs (ground arith))

-- What `poll` leaves.
pub record SameBut (s s' : Poller) : Type 0 where
  pub channels : s'.channels ≡ s.channels
  pub poll_fds : s'.poll_fds ≡ s.poll_fds
  pub kept : (q : ℕ) → (e : Events) × (s'.store q ≡ set_revents (s.store q) e)
  pub heard :
      (i p : ℕ) (f : PollFd)
      → get_elem? s.poll_fds i ≡ some f
      → any_event f.revents ≡ true
      → s.channels (fd_of f.fd) ≡ some p
      → s'.store p ≡ set_revents (s.store p) f.revents

delivered-SameBut :
    (s : Poller)
    → AllApart s.channels s.poll_fds
    → SameBut s (record s { store = delivered s.channels s.poll_fds s.store })
delivered-SameBut s apart = record {
  channels = refl;
  poll_fds = refl;
  kept = delivered_at s.channels s.poll_fds s.store;
  heard = λ i p f. delivered_marked s.channels s.poll_fds s.store i p f apart;
}

poll_marked :
    (n : ℕ) (es : List Events) (s : Poller)
    → marks (mark es s.poll_fds) ≡ n
    → AllBound (mark es s.poll_fds) (record s { poll_fds = mark es s.poll_fds })
    → poll (returned n es) s
      ≡ ok (
        ready s.channels (mark es s.poll_fds),
        record s {
          poll_fds = mark es s.poll_fds;
          store = delivered s.channels (mark es s.poll_fds) s.store;
        },
      )
unfolding poll Filled
poll_marked n es s count bound =
    let fs = mark es s.poll_fds in
    let t : Poller = record s { poll_fds = fs } in
    let ran = fill_active_channels_lem fs t [] bound in
    elim (Bool-cases (ltb 0 n)) [
      | inl some_marked ↦ rw some_marked (rw (← count) ran)
      | inr none_marked ↦
          let quiet : marks fs ≡ 0 = ground (arith, count) in
          rw none_marked (
            ap (λ l. ok (l, t)) (sym (marks_none s.channels fs quiet))
            ∙ ap (λ st. ok (ready s.channels fs, record t { store = st }))
                (sym (delivered_none s.channels fs s.store quiet)))
    ]

-- The poller after `poll` returned the events `es`.
unfoldable pub polled : List Events → Poller → Poller
polled es s = record s {
  poll_fds = mark es s.poll_fds;
  store = delivered s.channels (mark es s.poll_fds) s.store;
}

-- For a valid poller and what ::poll documents to return, the count of the entries that it has marked:
-- no assertion of `poll` fails, it hands on the channels of exactly the marked entries, each once and in
-- their order, each of these channels receives the events of its own entry, and it changes nothing else
-- of the map, the entries or a channel.
pub poller_poll_lem :
    (es : List Events) (s : Poller)
    → IsValid s
    → is_answer es s.poll_fds ≡ true
    → (poll (returned (marked es) es) s ≡ ok (ready s.channels (mark es s.poll_fds), polled es s))
      × SameBut (record s { poll_fds = mark es s.poll_fds }) (polled es s)
unfolding polled
poller_poll_lem es s v fits =
    let t : Poller = record s { poll_fds = mark es s.poll_fds } in
    (
      poll_marked (marked es) es s (marks-mark es s.poll_fds fits) (
          mark-AllBound es s.poll_fds t fits (λ i f at.
            (let (p, bound, at_index) = v.listed i f at in
              (p, bound, (v.registered (fd_of f.fd) p bound).0)))),
      delivered-SameBut t (mark-AllApart es s v),
    )
