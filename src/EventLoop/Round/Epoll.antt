-- ===== src/EventLoop/Round/Epoll.antt =====
-- A round over the poller of poller/Epoller.cpp, which is the one that a loop is given by default.
use reactor_network_lib.EventLoop.Round.{Polling, round, ℕ, List}
use reactor_network_lib.EventLoop.Round.Calls.{calls_of}
use reactor_network_lib.EventLoop.Round.Runs
use reactor_network_lib.EventLoop.Round.Runs.{IsSound, Gentle, Lawful}
use reactor_network_lib.Epoller.{Epoller, Ready, poll, returned}
use reactor_network_lib.Epoller.Protocol.{IsValid}
use reactor_network_lib.Epoller.Ready.{poll-polled, polled, pointers, delivered, AllBound}
use reactor_network_lib.Channel.{Channel, Call, handle_event, set_revents}
use reactor_network_lib.Channel.Store.{Store, store_at}
use reactor_network_lib.Common.{
  ℕ, List, ap, ◌≡◌, Bool, length, Bool-cases, ◌∙◌, ◌∷◌, ◌≢◌, arith, ◌<◌, ◌≤◌, ◌==◌, ok, [], inl,
  refl, inr,
}

-- What each event calls for: its channel, on the event, runs its callbacks.
abbrev pub due : ℕ → Store → List Ready → List (ℕ × List Call)
due now store [] = []
due now store ((p, e) ∷ es) = (p, (handle_event (set_revents (store p) e) now).0) ∷ due now store es

-- No event is of the channel `p`.
abbrev pub Spares : ℕ → List Ready → Type 0
Spares p [] = Unit {0}
Spares p ((q, e) ∷ es) = (p ≢ q) × Spares p es

-- `epoll_wait` returns at most one event for a channel.
abbrev pub AllApart : List Ready → Type 0
AllApart [] = Unit {0}
AllApart ((p, e) ∷ es) = Spares p es × AllApart es

delivered-Spares :
    (es : List Ready) (store : Store) (p : ℕ) → Spares p es → delivered es store p ≡ store p
delivered-Spares [] store p h = refl
delivered-Spares ((q, e) ∷ es) store p h =
    delivered-Spares es (store_at store q (set_revents (store q) e)) p h.1 ∙ ground (arith, h.0)

due-Spares :
    (now p : ℕ) (c : Channel) (es : List Ready) (store : Store)
    → Spares p es
    → due now (store_at store p c) es ≡ due now store es
due-Spares now p c [] store h = refl
due-Spares now p c ((q, e) ∷ es) store h =
    let same : store_at store p c q ≡ store q = ground (arith, h.0) in
    ap (λ d. (q, (handle_event (set_revents d e) now).0) ∷ due now (store_at store p c) es) same
    ∙ ap (λ l. (q, (handle_event (set_revents (store q) e) now).0) ∷ l)
        (due-Spares now p c es store h.1)

pub calls-due :
    (now : ℕ) (es : List Ready) (store : Store)
    → AllApart es
    → calls_of now (delivered es store) (pointers es) ≡ due now store es
calls-due now [] store h = refl
calls-due now ((p, e) ∷ es) store h =
    let heard : Channel = set_revents (store p) e in
    let after : Store = store_at store p heard in
    let here : after p ≡ heard = ground arith in
    let own : delivered es after p ≡ heard = delivered-Spares es after p h.0 ∙ here in
    ap (λ c. (p, (handle_event c now).0) ∷ calls_of now (delivered es after) (pointers es)) own
    ∙ ap (λ l. (p, (handle_event heard now).0) ∷ l)
        (calls-due now es after h.1 ∙ due-Spares now p heard es store h.0)

-- The kernel has accepted every call, and the vector of events has room.
pub record IsWorking (s : Epoller) : Type 0 where
  pub watched : (w : ℕ → Bool) × IsValid s w
  pub room : 0 < s.event_list_size

-- What `epoll_wait` documents: one event at most for each channel that is registered, and no more of
-- them than the vector has room for.
pub record IsAnswer (es : List Ready) (s : Epoller) : Type 0 where
  pub bound : AllBound es s
  pub apart : AllApart es
  pub fits : length es ≤ s.event_list_size

restore-IsWorking :
    (s : Epoller) (store : Store)
    → IsWorking s
    → ((q : ℕ) → ((store q).fd ≡ (s.store q).fd) × ((store q).index ≡ (s.store q).index))
    → IsWorking (record s { store = store })
restore-IsWorking s store v same =
    let (w, valid) = v.watched in
    record {
      watched = (
        w,
        record {
          accepted = valid.accepted;
          bound = λ fd q h. (let old = valid.bound fd q h in let kept = same q in ground arith);
          free = valid.free;
        },
      );
      room = v.room;
    }

pub put-IsWorking :
    (p : ℕ) (c : Channel) (s : Epoller)
    → IsWorking s
    → c.fd ≡ (s.store p).fd
    → c.index ≡ (s.store p).index
    → IsWorking (record s { store = store_at s.store p c })
put-IsWorking p c s v fd index =
    restore-IsWorking s (store_at s.store p c) v (λ q. (ground arith, ground arith))

delivered_keeps :
    (es : List Ready) (store : Store) (q : ℕ)
    → ((delivered es store q).fd ≡ (store q).fd) × ((delivered es store q).index ≡ (store q).index)
unfolding set_revents
delivered_keeps [] store q = (refl, refl)
delivered_keeps ((p, e) ∷ es) store q =
    let (fd, index) = delivered_keeps es (store_at store p (set_revents (store p) e)) q in
    (fd ∙ ground arith, index ∙ ground arith)

pub polled-IsWorking : (es : List Ready) (s : Epoller) → IsWorking s → IsWorking (polled es s)
unfolding polled
polled-IsWorking es s v =
    let v' = restore-IsWorking s (delivered es s.store) v (delivered_keeps es s.store) in
    let (w, valid) = v'.watched in
    elim (Bool-cases (length es == s.event_list_size)) [
      | inl full ↦ rw full (record {
        watched = (w, record { accepted = valid.accepted; bound = valid.bound; free = valid.free });
        room = omega (arith, v.room);
      })
      | inr spare ↦ rw spare v'
    ]

pub store-polled : (es : List Ready) (s : Epoller) → (polled es s).store ≡ delivered es s.store
unfolding polled
store-polled es s = ground arith

abbrev pub polling : Polling
polling = record {
  State = Epoller;
  Answer = List Ready;
  store = λ s. s.store;
  put = λ p c s. record s { store = store_at s.store p c };
  poll = λ es s. poll (returned es) s;
}

abbrev pub sound : IsSound polling
sound = record {
  IsValid = IsWorking;
  Fits = IsAnswer;
  due = λ now es s. due now s.store es;
  store-put = λ p c s q. refl;
  put-IsValid = put-IsWorking;
  polls = λ es s v fits. (
    pointers es,
    polled es s,
    poll-polled es s fits.bound fits.fits v.room,
    polled-IsWorking es s v,
    λ now.
        ap (λ st. calls_of now st (pointers es)) (store-polled es s)
        ∙ calls-due now es s.store fits.apart,
  );
}

-- For an epoller of which the kernel has accepted every call, what `epoll_wait` documents to return, and
-- callbacks that keep the epoller so and leave the events received and the callbacks of each channel as
-- they are: no assertion of the round fails, for each event, in their order, its channel runs once the
-- callbacks that the event calls for, and the kernel has accepted every call that they made.
pub epoller_round_lem :
    (act : ℕ → List Call → Epoller → Epoller) (now : ℕ) (es : List Ready) (s : Epoller)
    → Gentle polling sound act
    → Lawful polling sound act
    → IsWorking s
    → IsAnswer es s
    → (s' : Epoller) × (round polling act now es s ≡ ok (due now s.store es, s')) × IsWorking s'
epoller_round_lem act now es s gentle lawful v fits =
    Runs.round_lem polling sound act gentle lawful now es s v fits
