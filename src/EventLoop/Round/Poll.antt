-- ===== src/EventLoop/Round/Poll.antt =====
-- A round over the poller of poller/Poller.cpp.
use reactor_network_lib.EventLoop.Round.{Polling, round, ℕ, List}
use reactor_network_lib.EventLoop.Round.Calls.{calls_of}
use reactor_network_lib.EventLoop.Round.Runs
use reactor_network_lib.EventLoop.Round.Runs.{IsSound, Gentle, Lawful}
use reactor_network_lib.Poller.{Poller, PollFd, poll, fd_of, mark, returned}
use reactor_network_lib.Poller.Inv.{IsValid}
use reactor_network_lib.Poller.Fill.{ready}
use reactor_network_lib.Poller.Ready.{poller_poll_lem, polled, is_answer, marked, SameBut}
use reactor_network_lib.Poller.Delivery.{restore-IsValid, mark-IsValid}
use reactor_network_lib.Channel.{Channel, Events, Call, handle_event, set_revents, any_event}
use reactor_network_lib.Channel.Store.{Store, store_at}
use reactor_network_lib.Common.{
  ℕ, List, ◌≡◌, Option, get_elem?, ap, arith, true, ◌∷◌, some, ok, if◌then◌else◌, suc, Bool-cases,
  none, inr, [], inl, Option-cases, ◌∙◌, refl,
}

-- What each marked entry calls for: its channel, on the entry's events, runs its callbacks.
abbrev pub due : ℕ → (ℕ → Option ℕ) → Store → List PollFd → List (ℕ × List Call)
due now channels store [] = []
due now channels store (f ∷ fs) =
    let rest = due now channels store fs in
    if any_event f.revents
    then elim (channels (fd_of f.fd)) [
      | none ↦ rest
      | some p ↦ (p, (handle_event (set_revents (store p) f.revents) now).0) ∷ rest
    ]
    else rest

-- What the channels that `poll` hands on run is what the marked entries call for.
pub calls-due :
    (now : ℕ) (fs : List PollFd) (s s' : Poller)
    → ((i p : ℕ) (f : PollFd)
        → get_elem? fs i ≡ some f
        → any_event f.revents ≡ true
        → s.channels (fd_of f.fd) ≡ some p
        → s'.store p ≡ set_revents (s.store p) f.revents)
    → calls_of now s'.store (ready s.channels fs) ≡ due now s.channels s.store fs
calls-due now [] s s' heard = refl
calls-due now (f ∷ fs) s s' heard =
    let rest = calls-due now fs s s' (λ i p g at. heard (suc i) p g at) in
    elim (Bool-cases (any_event f.revents)) [
      | inr miss ↦ rw miss rest
      | inl hit ↦ elim (Option-cases (s.channels (fd_of f.fd))) [
        | inl lost ↦ rw (hit, lost) rest
        | inr (p, bound) ↦
            rw (hit, bound)
              (ap (λ l. (p, (handle_event (s'.store p) now).0) ∷ l) rest
                ∙ ap (λ c. (p, (handle_event c now).0) ∷ due now s.channels s.store fs)
                    (heard 0 p f refl hit bound))
      ]
    ]

pub polled-IsValid :
    (es : List Events) (s : Poller)
    → IsValid s
    → SameBut (record s { poll_fds = mark es s.poll_fds }) (polled es s)
    → IsValid (polled es s)
unfolding polled set_revents
polled-IsValid es s v same =
    restore-IsValid (record s { poll_fds = mark es s.poll_fds }) (polled es s).store
      (mark-IsValid es s v)
      (λ q. (ap (λ c. c.fd) (same.kept q).1, ap (λ c. c.index) (same.kept q).1))

-- The system call returns the count of the entries that it has marked.
abbrev pub polling : Polling
polling = record {
  State = Poller;
  Answer = List Events;
  store = λ s. s.store;
  put = λ p c s. record s { store = store_at s.store p c };
  poll = λ es s. poll (returned (marked es) es) s;
}

pub put-IsValid :
    (p : ℕ) (c : Channel) (s : Poller)
    → IsValid s
    → c.fd ≡ (s.store p).fd
    → c.index ≡ (s.store p).index
    → IsValid (record s { store = store_at s.store p c })
put-IsValid p c s v fd index =
    restore-IsValid s (store_at s.store p c) v (λ q. (ground arith, ground arith))

abbrev pub sound : IsSound polling
sound = record {
  IsValid = IsValid;
  Fits = λ es s. is_answer es s.poll_fds ≡ true;
  due = λ now es s. due now s.channels s.store (mark es s.poll_fds);
  store-put = λ p c s q. refl;
  put-IsValid = put-IsValid;
  polls = λ es s v fits.
      let (ran, same) = poller_poll_lem es s v fits in
      (
        ready s.channels (mark es s.poll_fds),
        polled es s,
        ran,
        polled-IsValid es s v same,
        λ now. calls-due now (mark es s.poll_fds) s (polled es s) (λ i p f. same.heard i p f),
      );
}

-- For a valid poller, what ::poll documents to return, and callbacks that keep the poller valid and
-- leave the events received and the callbacks of each channel as they are: no assertion of the round
-- fails, for each marked entry and no other, in their order, its channel runs once the callbacks that
-- the entry's events call for, and the poller is valid after it.
pub poller_round_lem :
    (act : ℕ → List Call → Poller → Poller) (now : ℕ) (es : List Events) (s : Poller)
    → Gentle polling sound act
    → Lawful polling sound act
    → IsValid s
    → is_answer es s.poll_fds ≡ true
    → (s' : Poller) × (round polling act now es s
        ≡ ok (due now s.channels s.store (mark es s.poll_fds), s'))
      × IsValid s'
poller_round_lem act now es s gentle lawful v fits =
    Runs.round_lem polling sound act gentle lawful now es s v fits
