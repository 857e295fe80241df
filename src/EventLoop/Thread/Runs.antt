-- ===== src/EventLoop/Thread/Runs.antt =====
-- What `start_loop` and the destructor may count on, in every order of the steps of the two threads.
use reactor_network_lib.EventLoop.Thread.{
  EventLoopThread, Owner, Worker, Step, Reaches, create, start_loop, check_loop, publish,
  enter_loop, test_quit, quit_loop, destroy, join, idle, waits, returned, joins, joined, crashed,
  absent, begun, published, looping, gone, starts, checks, publishes, enters, tests, quits,
  destroys, destroys_idle, joins_gone, here, later, Bool, ◌≡◌,
}
use reactor_network_lib.Common.{Bool, ◌≡◌, arith, true, false, not, ◌||◌, refl}

-- The owner knows a loop, which exists or has ended.
abbrev pub knows : Owner → Bool
knows returned = true
knows joins = true
knows joined = true
knows _ = false

abbrev pub has_begun : Worker → Bool
has_begun absent = false
has_begun _ = true

abbrev pub is_published : Worker → Bool
is_published absent = false
is_published begun = false
is_published _ = true

abbrev pub is_idle : Owner → Bool
is_idle idle = true
is_idle _ = false

abbrev pub is_joined : Owner → Bool
is_joined joined = true
is_joined _ = false

abbrev pub is_gone : Worker → Bool
is_gone gone = true
is_gone _ = false

abbrev implies : Bool → Bool → Bool
implies a b = not a || b

-- `loop_` is set exactly from when the thread makes its loop known; the owner comes back from `start_loop`
-- only after that, and from the destructor only after the thread has ended.
pub record IsValid (t : EventLoopThread) : Type 0 where
  pub known : t.loop ≡ is_published t.worker
  pub told : implies (knows t.owner) t.loop ≡ true
  pub started : implies (is_idle t.owner) (not (has_begun t.worker)) ≡ true
  pub ended : implies (is_joined t.owner) (is_gone t.worker) ≡ true

step-IsValid : {t t' : EventLoopThread} → Step t t' → IsValid t → IsValid t'
unfolding start_loop check_loop publish enter_loop test_quit quit_loop destroy join
step-IsValid {t} (starts o) v = record {
  known = ground (arith, v.known, v.told, v.started, v.ended, o);
  told = ground (arith, v.known, v.told, v.started, v.ended, o);
  started = ground (arith, v.known, v.told, v.started, v.ended, o);
  ended = ground (arith, v.known, v.told, v.started, v.ended, o);
}
step-IsValid {t} (checks o) v = record {
  known = ground (arith, v.known, v.told, v.started, v.ended, o);
  told = ground (arith, v.known, v.told, v.started, v.ended, o);
  started = ground (arith, v.known, v.told, v.started, v.ended, o);
  ended = ground (arith, v.known, v.told, v.started, v.ended, o);
}
step-IsValid {t} (publishes w) v = record {
  known = ground (arith, v.known, v.told, v.started, v.ended, w);
  told = ground (arith, v.known, v.told, v.started, v.ended, w);
  started = ground (arith, v.known, v.told, v.started, v.ended, w);
  ended = ground (arith, v.known, v.told, v.started, v.ended, w);
}
step-IsValid {t} (enters w) v = record {
  known = ground (arith, v.known, v.told, v.started, v.ended, w);
  told = ground (arith, v.known, v.told, v.started, v.ended, w);
  started = ground (arith, v.known, v.told, v.started, v.ended, w);
  ended = ground (arith, v.known, v.told, v.started, v.ended, w);
}
step-IsValid {t} (tests w) v = record {
  known = ground (arith, v.known, v.told, v.started, v.ended, w);
  told = ground (arith, v.known, v.told, v.started, v.ended, w);
  started = ground (arith, v.known, v.told, v.started, v.ended, w);
  ended = ground (arith, v.known, v.told, v.started, v.ended, w);
}
step-IsValid {t} (quits w) v = record {
  known = ground (arith, v.known, v.told, v.started, v.ended, w);
  told = ground (arith, v.known, v.told, v.started, v.ended, w);
  started = ground (arith, v.known, v.told, v.started, v.ended, w);
  ended = ground (arith, v.known, v.told, v.started, v.ended, w);
}
step-IsValid {t} (destroys_idle o) v = record {
  known = ground (arith, v.known, v.told, v.started, v.ended, o);
  told = ground (arith, v.known, v.told, v.started, v.ended, o);
  started = ground (arith, v.known, v.told, v.started, v.ended, o);
  ended = ground (arith, v.known, v.told, v.started, v.ended, o);
}
step-IsValid {t} (destroys o) v = record {
  known = ground (arith, v.known, v.told, v.started, v.ended, o);
  told = ground (arith, v.known, v.told, v.started, v.ended, o);
  started = ground (arith, v.known, v.told, v.started, v.ended, o);
  ended = ground (arith, v.known, v.told, v.started, v.ended, o);
}
step-IsValid {t} (joins_gone o w) v = record {
  known = ground (arith, v.known, v.told, v.started, v.ended, o, w);
  told = ground (arith, v.known, v.told, v.started, v.ended, o, w);
  started = ground (arith, v.known, v.told, v.started, v.ended, o, w);
  ended = ground (arith, v.known, v.told, v.started, v.ended, o, w);
}

-- In every state that the two threads reach from the constructor, in any order of their steps: `loop_` is
-- set exactly from when the thread makes its loop known, `start_loop` has come back only with a loop, and
-- the destructor has come back only after the thread has ended.
pub thread_lem : (t : EventLoopThread) → Reaches create t → IsValid t
unfolding create
thread_lem t reached =
    go reached (record { known = refl; told = refl; started = refl; ended = refl })
  where
    go : {a b : EventLoopThread} → Reaches a b → IsValid a → IsValid b
    go here v = v
    go (later s r) v = go r (step-IsValid s v)

-- A destructor has set `quit_`, and the loop that began after that has reset it.
abbrev pub Lost : EventLoopThread → Type 0
Lost t = (t.owner ≡ joins) × (t.worker ≡ looping) × (t.quit ≡ false)

-- A step that is not a call of `quit` by the loop's own channels or functors.
abbrev pub is_quits : {t t' : EventLoopThread} → Step t t' → Bool
is_quits (quits w) = true
is_quits _ = false

abbrev pub NoQuits : {t t' : EventLoopThread} → Reaches t t' → Type 0
NoQuits here = Unit {0}
NoQuits (later s r) = (is_quits s ≡ false) × NoQuits r

Lost-Step : {t t' : EventLoopThread} (s : Step t t') → is_quits s ≡ false → Lost t → Lost t'
unfolding start_loop check_loop publish enter_loop test_quit quit_loop destroy join
Lost-Step {t} (starts o) e (a, b, c) = absurd (ground arith)
Lost-Step {t} (checks o) e (a, b, c) = absurd (ground arith)
Lost-Step {t} (publishes w) e (a, b, c) = absurd (ground arith)
Lost-Step {t} (enters w) e (a, b, c) = absurd (ground arith)
Lost-Step {t} (tests w) e (a, b, c) = (ground arith, ground arith, ground arith)
Lost-Step {t} (quits w) e (a, b, c) = absurd (ground arith)
Lost-Step {t} (destroys_idle o) e (a, b, c) = absurd (ground arith)
Lost-Step {t} (destroys o) e (a, b, c) = absurd (ground arith)
Lost-Step {t} (joins_gone o w) e (a, b, c) = absurd (ground arith)

-- Where the destructor runs after the loop has been made known but before it begins, the loop resets the
-- `quit_` of the destructor: then, in every order of further steps, the destructor never comes back,
-- unless the loop's own channels or functors call `quit`.
pub lost_lem :
    (t t' : EventLoopThread)
    → t.owner ≡ returned
    → t.worker ≡ published
    → t.loop ≡ true
    → (r : Reaches (enter_loop (destroy t)) t') → NoQuits r
    → t'.owner ≡ joins
unfolding enter_loop destroy
lost_lem t t' back made known r none_quits = (go r none_quits (ground arith, refl, refl)).0
  where
    go : {a b : EventLoopThread} (r : Reaches a b) → NoQuits r → Lost a → Lost b
    go here h l = l
    go (later s r) (e, h) l = go r h (Lost-Step s e l)

-- A destructor whose `quit_` stands.
abbrev pub ends : EventLoopThread → Bool
ends t = elim t.owner [
  | joins ↦ elim t.worker [ looping ↦ t.quit | gone ↦ true | _ ↦ false ]
  | joined ↦ elim t.worker [ gone ↦ true | _ ↦ false ]
  | _ ↦ false
]

ends-Step : {t t' : EventLoopThread} → Step t t' → ends t ≡ true → ends t' ≡ true
unfolding start_loop check_loop publish enter_loop test_quit quit_loop destroy join
ends-Step {t} (starts o) e = ground arith
ends-Step {t} (checks o) e = ground arith
ends-Step {t} (publishes w) e = ground arith
ends-Step {t} (enters w) e = ground arith
ends-Step {t} (tests w) e = ground arith
ends-Step {t} (quits w) e = ground arith
ends-Step {t} (destroys_idle o) e = ground arith
ends-Step {t} (destroys o) e = ground arith
ends-Step {t} (joins_gone o w) e = ground arith

finish :
    (t : EventLoopThread) (o : Owner) (w : Worker)
    → t.owner ≡ o
    → t.worker ≡ w
    → ends t ≡ true
    → (t' : EventLoopThread) × Reaches t t' × (t'.owner ≡ joined)
unfolding test_quit join
finish t joined w a b e = (t, here, a)
finish t joins gone a b e = (join t, later (joins_gone a b) here, refl)
finish t joins looping a b e =
    let over : (test_quit t).worker ≡ gone = ground arith in
    let still : (test_quit t).owner ≡ joins = ground arith in
    (join (test_quit t), later (tests b) (later (joins_gone still over) here), refl)
finish t joins absent a b e = absurd (ground arith)
finish t joins begun a b e = absurd (ground arith)
finish t joins published a b e = absurd (ground arith)
finish t idle w a b e = absurd (ground arith)
finish t waits w a b e = absurd (ground arith)
finish t returned w a b e = absurd (ground arith)
finish t crashed w a b e = absurd (ground arith)

pub joins_lem :
    (t t' : EventLoopThread)
    → t.owner ≡ returned
    → t.worker ≡ looping
    → t.loop ≡ true
    → Reaches (destroy t) t'
    → (t'' : EventLoopThread) × Reaches t' t'' × (t''.owner ≡ joined)
unfolding destroy
joins_lem t t' back runs known r = finish t' t'.owner t'.worker refl refl (go r (ground arith))
  where
    go : {a b : EventLoopThread} → Reaches a b → ends a ≡ true → ends b ≡ true
    go here e = e
    go (later s r) e = go r (ends-Step s e)
