-- ===== src/EventLoop/Round/Calls.antt =====
-- Which callbacks the active channels of a round run.
use reactor_network_lib.Channel.{Channel, Call, handle_event}
use reactor_network_lib.Channel.Store.{Store, store_at}
use reactor_network_lib.Common.{◌≡◌, ℕ, ◌∙◌, List, arith, refl, ◌∷◌, ap, []}

-- What decides the callbacks that a channel runs.
pub record SameHearing (c d : Channel) : Type 0 where
  pub revents : c.revents ≡ d.revents
  pub reads : c.read_callback ≡ d.read_callback
  pub writes : c.write_callback ≡ d.write_callback
  pub errors : c.error_callback ≡ d.error_callback
  pub closes : c.close_callback ≡ d.close_callback

same_calls :
    (c d : Channel) (now : ℕ) → SameHearing c d → (handle_event c now).0 ≡ (handle_event d now).0
unfolding handle_event
same_calls c d now same = rw (same.revents, same.reads, same.writes, same.errors, same.closes) refl

pub SameHearing-trans : {c d e : Channel} → SameHearing c d → SameHearing d e → SameHearing c e
SameHearing-trans a b = record {
  revents = a.revents ∙ b.revents;
  reads = a.reads ∙ b.reads;
  writes = a.writes ∙ b.writes;
  errors = a.errors ∙ b.errors;
  closes = a.closes ∙ b.closes;
}

-- What the channels of a list run, each as it is in the store.
abbrev pub calls_of : ℕ → Store → List ℕ → List (ℕ × List Call)
calls_of now store [] = []
calls_of now store (p ∷ ps) = (p, (handle_event (store p) now).0) ∷ calls_of now store ps

pub after_event :
    (now p : ℕ) (store : Store) (q : ℕ)
    → SameHearing (store_at store p (handle_event (store p) now).1 q) (store q)
unfolding handle_event
after_event now p store q = record {
  revents = ground arith;
  reads = ground arith;
  writes = ground arith;
  errors = ground arith;
  closes = ground arith;
}

pub same_calls_of :
    (now : ℕ) (ps : List ℕ) (a b : Store)
    → ((q : ℕ) → SameHearing (a q) (b q))
    → calls_of now a ps ≡ calls_of now b ps
same_calls_of now [] a b same = refl
same_calls_of now (p ∷ ps) a b same =
    ap (λ c. (p, c) ∷ calls_of now a ps) (same_calls (a p) (b p) now (same p))
    ∙ ap (λ l. (p, (handle_event (b p) now).0) ∷ l) (same_calls_of now ps a b same)
