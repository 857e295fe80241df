-- ===== src/EventLoop/Round/Tests.antt =====
-- Two channels, both readable and one writable, whose callbacks stop writing.
use reactor_network_lib.Poller.{Poller, PollFd, update_channel, mark}
use reactor_network_lib.Poller.Inv.{IsRegistered, IsValid, update_registered-IsValid}
use reactor_network_lib.Poller.Delivery.{restore-IsValid}
use reactor_network_lib.Poller.Ready.{is_answer}
use reactor_network_lib.Poller.Tests.{two, two-IsValid, input}
use reactor_network_lib.Channel.{Events, Call, disable_writing, k_none_event}
use reactor_network_lib.Channel.Store.{store_at, is_bound_to}
use reactor_network_lib.EventLoop.Round.{round, ℕ, Outcome, List}
use reactor_network_lib.EventLoop.Round.Calls.{SameHearing}
use reactor_network_lib.EventLoop.Round.Runs.{Gentle, Lawful}
use reactor_network_lib.EventLoop.Round.Poll
use reactor_network_lib.EventLoop.Round.Epoll
use reactor_network_lib.EventLoop.Round.Epoll.{IsWorking, IsAnswer}
use reactor_network_lib.Epoller.{Epoller}
use reactor_network_lib.Epoller.Protocol.{watch}
use reactor_network_lib.Epoller.Lawful.{set_events, set_events-IsValid}
use reactor_network_lib.Epoller.Tests.{one, one-IsValid, nothing, added_five, five_readable}
use reactor_network_lib.Common.{
  ℕ, Outcome, List, ◌≡◌, ok, if◌then◌else◌, arith, Bool-cases, ◌∷◌, true, fault, inr, is_neg, [],
  refl, inl, Option, ap, some, ◌∙◌, none,
}

-- `Channel::disable_writing` with its update.
abbrev pub silenced : ℕ → Poller → Poller
silenced p s = record s { store = store_at s.store p (disable_writing (s.store p)) }

abbrev pub settle : Outcome Poller → Poller → Poller
settle (ok s') s = s'
settle (fault e) s = s

abbrev pub stops_writing : ℕ → List Call → Poller → Poller
stops_writing p calls s =
    if is_bound_to (s.channels (s.store p).fd) p
    then settle (update_channel p (silenced p s)) s
    else s

silenced-IsValid : (p : ℕ) (s : Poller) → IsValid s → IsValid (silenced p s)
unfolding disable_writing
silenced-IsValid p s v =
    restore-IsValid s (silenced p s).store v (λ q. (ground arith, ground arith))

silenced-SameHearing :
    (p : ℕ) (s : Poller) (q : ℕ) → SameHearing ((silenced p s).store q) (s.store q)
unfolding disable_writing
silenced-SameHearing p s q = record {
  revents = ground arith;
  reads = ground arith;
  writes = ground arith;
  errors = ground arith;
  closes = ground arith;
}

bound_lem : (m : Option ℕ) (p : ℕ) → is_bound_to m p ≡ true → m ≡ some p
bound_lem none p h = absurd (ground arith)
bound_lem (some q) p h = ground arith

silenced-IsRegistered :
    (p : ℕ) (s : Poller)
    → is_bound_to (s.channels (s.store p).fd) p ≡ true
    → IsRegistered p (silenced p s)
unfolding disable_writing
silenced-IsRegistered p s bound =
    let same : ((silenced p s).store p).fd ≡ (s.store p).fd = ground arith in
    ap s.channels same ∙ bound_lem (s.channels (s.store p).fd) p bound

stops_writing_lem :
    (p : ℕ) (calls : List Call) (s : Poller)
    → IsValid s
    → IsValid (stops_writing p calls s)
      × ((q : ℕ) → SameHearing ((stops_writing p calls s).store q) (s.store q))
stops_writing_lem p calls s v = elim (Bool-cases (is_bound_to (s.channels (s.store p).fd) p)) [
  | inr free ↦ (
    rw free v,
    λ q.
        rw free
          (record { revents = refl; reads = refl; writes = refl; errors = refl; closes = refl }),
  )
  | inl bound ↦
      let (i, f, found, ran, valid) =
        update_registered-IsValid p (silenced p s) (silenced-IsValid p s v)
          (silenced-IsRegistered p s bound) in
      (rw (bound, ran) valid, λ q. rw (bound, ran) (silenced-SameHearing p s q))
]

pub stops_writing-Gentle : Gentle Poll.polling Poll.sound stops_writing
stops_writing-Gentle p calls s v = (stops_writing_lem p calls s v).1

pub stops_writing-Lawful : Lawful Poll.polling Poll.sound stops_writing
stops_writing-Lawful p calls s v = (stops_writing_lem p calls s v).0

-- Every entry with a descriptor of 0 or more is readable.
abbrev pub readable : List PollFd → List Events
readable [] = []
readable (f ∷ fs) = (if is_neg f.fd then k_none_event else input) ∷ readable fs

pub readable_lem : (fs : List PollFd) → is_answer (readable fs) fs ≡ true
readable_lem [] = refl
readable_lem (f ∷ fs) = ground (arith, readable_lem fs)

abbrev answers : List Events
answers = k_none_event ∷ input ∷ []

poller_round_lem_example :
    (s' : Poller) × (round Poll.polling stops_writing 5 answers two
      ≡ ok (Poll.due 5 two.channels two.store (mark answers two.poll_fds), s'))
    × IsValid s'
poller_round_lem_example =
    Poll.poller_round_lem stops_writing 5 answers two stops_writing-Gentle stops_writing-Lawful
      two-IsValid refl

-- Callbacks that set the events of their own channel.
abbrev mutes : ℕ → List Call → Epoller → Epoller
mutes p calls s = set_events p k_none_event s

mutes-Gentle : Gentle Epoll.polling Epoll.sound mutes
mutes-Gentle p calls s v q = record {
  revents = ground arith;
  reads = ground arith;
  writes = ground arith;
  errors = ground arith;
  closes = ground arith;
}

mutes-Lawful : Lawful Epoll.polling Epoll.sound mutes
mutes-Lawful p calls s v =
    let (w, valid) = v.watched in
    record { watched = (w, set_events-IsValid p k_none_event s w valid); room = v.room }

one-IsWorking : IsWorking one
one-IsWorking = record { watched = (watch nothing added_five, one-IsValid); room = omega arith }

one-IsAnswer : IsAnswer five_readable one
one-IsAnswer = record { bound = (refl, tt); apart = (tt, tt); fits = omega arith }

epoller_round_lem_example :
    (s' : Epoller) × (round Epoll.polling mutes 5 five_readable one
      ≡ ok (Epoll.due 5 one.store five_readable, s'))
    × IsWorking s'
epoller_round_lem_example =
    Epoll.epoller_round_lem mutes 5 five_readable one mutes-Gentle mutes-Lawful one-IsWorking
      one-IsAnswer
