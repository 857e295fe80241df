-- ===== src/EventLoop/Channels/Calls.antt =====
-- The owners of channels against a loop with any lawful poller.
use reactor_network_lib.EventLoop.Channels.{Loop, update_channel, remove_channel, update, ℕ}
use reactor_network_lib.PollerInterface.{PollerInterface, IsLawful, IsFresh}
use reactor_network_lib.PollerInterface.Clients.{
  Call, call, calls, calls_lem, Legal, map_calls, registers, changes, retires,
}
use reactor_network_lib.Channel.{k_none_event}
use reactor_network_lib.Common.{
  ℕ, Outcome, List, ◌≡◌, ok, ◌>>=◌, ◌∷◌, ◌==◌, true, [], arith, refl, Outcome-cases, ap, Bool, inl,
  false, sym, ◌∙◌, inr, Fault, fault,
}

module _ (P : PollerInterface) (L : IsLawful P) (owner_loop : ℕ → ℕ) where
  -- An owner sets the events of its channel, and the channel updates itself; to end, it is removed too.
  pub loop_call : ℕ → Call → Loop P → Outcome (Loop P)
  loop_call thread (registers p e) l =
      update P owner_loop thread p (record l { poller = P.set_events p e l.poller })
  loop_call thread (changes p e) l =
      update P owner_loop thread p (record l { poller = P.set_events p e l.poller })
  loop_call thread (retires p) l = do
    l' ← update P owner_loop thread p (record l { poller = P.set_events p k_none_event l.poller })
    remove_channel P owner_loop thread p l'

  pub loop_calls : ℕ → List Call → Loop P → Outcome (Loop P)
  loop_calls thread [] l = ok l
  loop_calls thread (c ∷ cs) l = do l' ← loop_call thread c l; loop_calls thread cs l'

  update_lem :
      (p : ℕ) (l : Loop P) (s' : P.State)
      → owner_loop p ≡ l.this
      → P.update_channel p l.poller ≡ ok s'
      → update P owner_loop l.thread_id p l ≡ ok (record l { poller = s' })
  unfolding update update_channel
  update_lem p l s' mine ran =
      let own : l.thread_id == l.thread_id ≡ true = ground arith in
      let same : l.this == l.this ≡ true = ground arith in rw (mine, same, own, ran) refl

  remove_lem :
      (p : ℕ) (l : Loop P) (s' : P.State)
      → owner_loop p ≡ l.this
      → P.remove_channel p l.poller ≡ ok s'
      → remove_channel P owner_loop l.thread_id p l ≡ ok (record l { poller = s' })
  unfolding remove_channel
  remove_lem p l s' mine ran =
      let own : l.thread_id == l.thread_id ≡ true = ground arith in
      let same : l.this == l.this ≡ true = ground arith in rw (mine, same, own, ran) refl

  ok-injective : {a b : P.State} → ok a ≡ ok b → a ≡ b
  ok-injective h = cc

  fault_never {ℓ} : {B : Type ℓ} {f : Fault} {s : P.State} → fault f ≡ ok s → B
  fault_never h = absurd (ground arith)

  -- A call that the poller takes is taken by way of the loop, from the loop's own thread.
  loop_call_lem :
      (c : Call) (l : Loop P) (s' : P.State)
      → ((p : ℕ) → owner_loop p ≡ l.this)
      → call P L c l.poller ≡ ok s'
      → loop_call l.thread_id c l ≡ ok (record l { poller = s' })
  unfolding loop_call call
  loop_call_lem (registers p e) l s' mine ran =
      update_lem p (record l { poller = P.set_events p e l.poller }) s' (mine p) ran
  loop_call_lem (changes p e) l s' mine ran =
      update_lem p (record l { poller = P.set_events p e l.poller }) s' (mine p) ran
  loop_call_lem (retires p) l s' mine ran =
      let off = P.set_events p k_none_event l.poller in
      elim (Outcome-cases (P.update_channel p off)) [
        | inl (s1, updated) ↦
            let removed : P.remove_channel p s1 ≡ ok s' =
              sym (ap (λ o. o >>= (λ s. P.remove_channel p s)) updated) ∙ ran in
            rw (update_lem p (record l { poller = off }) s1 (mine p) updated)
              (remove_lem p (record l { poller = s1 }) s' (mine p) removed)
        | inr (f, failed) ↦
            fault_never (sym (ap (λ o. o >>= (λ s. P.remove_channel p s)) failed) ∙ ran)
      ]

  loop_calls_ok :
      (cs : List Call) (l : Loop P) (s' : P.State)
      → ((p : ℕ) → owner_loop p ≡ l.this)
      → calls P L cs l.poller ≡ ok s'
      → loop_calls l.thread_id cs l ≡ ok (record l { poller = s' })
  unfolding loop_calls calls
  loop_calls_ok [] l s' mine ran = ap (λ s. ok (record l { poller = s })) (ok-injective ran)
  loop_calls_ok (c ∷ cs) l s' mine ran = elim (Outcome-cases (call P L c l.poller)) [
    | inl (s1, did) ↦
        let rest : calls P L cs s1 ≡ ok s' =
          sym (ap (λ o. o >>= (λ s. calls P L cs s)) did) ∙ ran in
        rw (loop_call_lem c l s1 mine did)
          (loop_calls_ok cs (record l { poller = s1 }) s' mine rest)
    | inr (f, failed) ↦ fault_never (sym (ap (λ o. o >>= (λ s. calls P L cs s)) failed) ∙ ran)
  ]

-- A loop with a valid poller of either kind, whose channels are all its own: whatever their owners
-- register, change and retire in the loop's thread, in the order that Legal describes, no assertion of
-- the loop or of the poller fails, no fatal line is logged, and the poller's map is the one described.
pub loop_calls_lem :
    (P : PollerInterface) (L : IsLawful P) (owner_loop : ℕ → ℕ) (cs : List Call) (l : Loop P)
    (used : ℕ → Bool)
    → ((p : ℕ) → owner_loop p ≡ l.this)
    → L.IsValid l.poller
    → ((q : ℕ) → used q ≡ false → IsFresh (P.store l.poller q))
    → Legal (λ q. (P.store l.poller q).fd) cs (P.channels l.poller) used
    → (l' : Loop P) × (loop_calls P L owner_loop l.thread_id cs l ≡ ok l')
      × L.IsValid l'.poller
      × (l'.fatal_lines ≡ l.fatal_lines)
      × ((fd : ℕ)
          → P.channels l'.poller fd
            ≡ map_calls (λ q. (P.store l.poller q).fd) cs (P.channels l.poller) fd)
loop_calls_lem P L owner_loop cs l used mine v fresh legal =
    let (s', ran, valid, map) =
      calls_lem P L (λ q. (P.store l.poller q).fd) cs (P.channels l.poller) used l.poller
        (record { valid = v; same_fds = λ q. refl; same_map = λ fd. refl; unused = fresh }) legal in
    (record l { poller = s' }, loop_calls_ok P L owner_loop cs l s' mine ran, valid, refl, map)
