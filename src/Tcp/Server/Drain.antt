-- ===== src/Tcp/Server/Drain.antt =====
-- What is left of a server once its loops have run the functors that wait.
use reactor_network_lib.Tcp.Server.{
  Server, run_removal, run_destruction, remove_connection_in_loop, object_at, conn_name, count_key,
  ℕ,
}
use reactor_network_lib.Tcp.Server.Inv.{
  IsValid, opens, hears, waiting, run_removal-IsValid, run_destruction-IsValid,
}
use reactor_network_lib.Tcp.Server.Runs.{Event, run, step, removes, destroys, settled_lem}
use reactor_network_lib.Tcp.Connection.{is_open}
use reactor_network_lib.Tcp.Connection.Lifecycle.{connect_destoryed_lem}
use reactor_network_lib.Common.{
  ℕ, List, [], ◌≡◌, suc, ◌∷◌, ok, zero, length, arith, ◌+◌, length-append, true, sym, ◌∙◌, refl,
  List-cases, ◌++◌, inl, ap, inr, Outcome-cases, ◌>>=◌,
}

-- As many removals, and then destructions, as there are.
abbrev pub removals_of : ℕ → List Event
removals_of zero = []
removals_of (suc n) = removes ∷ removals_of n

abbrev pub destructions_of : ℕ → List Event
destructions_of zero = []
destructions_of (suc n) = destroys ∷ destructions_of n

removal_lem :
    (p : ℕ) (ps : List ℕ) (s s' : Server)
    → s.removals ≡ p ∷ ps
    → run_removal s ≡ ok s'
    → (s'.removals ≡ ps)
      × (length s'.destructions ≡ suc (length s.destructions))
      × ((q : ℕ) → s'.objects q ≡ s.objects q)
unfolding run_removal remove_connection_in_loop
removal_lem p ps s s' first ran =
    (ground arith, ground (arith, length-append s.destructions (p ∷ [])), λ q. ground arith)

destruction_lem :
    (p : ℕ) (ps : List ℕ) (s s' : Server)
    → IsValid s
    → s.destructions ≡ p ∷ ps
    → run_destruction s ≡ ok s'
    → (s'.destructions ≡ ps)
      × (s'.removals ≡ s.removals)
      × ((q : ℕ) → hears (s'.objects q) ≡ hears (s.objects q))
unfolding run_destruction
destruction_lem p ps s s' v first ran =
    let waits : waiting p s.destructions ≡ 1 + waiting p ps = ground (arith, first) in
    let up : is_open (s.objects p).state ≡ true = ground (arith, v.alive p, waits) in
    let (conn, ended, down, off) = connect_destoryed_lem (s.objects p) up in
    let deaf : hears (s.objects p) ≡ 0 = ground (arith, v.alive p, v.listed p, waits) in
    let out : ok (record s { destructions = ps; objects = object_at s.objects p conn }) ≡ ok s' =
      sym (rw first (rw ended refl)) ∙ ran in
    (ground (arith, out), ground (arith, out), λ q. ground (arith, out, deaf, off))

length_zero : (ps : List ℕ) → length ps ≡ 0 → ps ≡ []
length_zero [] h = refl
length_zero (p ∷ ps) h = absurd (ground arith)

ok-injective : {a b : Server} → ok a ≡ ok b → a ≡ b
ok-injective h = cc

removals_lem :
    (n : ℕ) (s : Server)
    → IsValid s
    → length s.removals ≡ n
    → (s' : Server) × (run (removals_of n) s ≡ ok s')
      × IsValid s'
      × (s'.removals ≡ [])
      × (length s'.destructions ≡ n + length s.destructions)
      × ((q : ℕ) → hears (s'.objects q) ≡ hears (s.objects q))
unfolding run step
removals_lem zero s v count = (s, refl, v, length_zero s.removals count, omega arith, λ q. refl)
removals_lem (suc n) s v count = elim (List-cases s.removals) [
  | inl quiet ↦ absurd (ground (arith, quiet))
  | inr (p, ps, first) ↦
      let (s1, ran, valid, _) = run_removal-IsValid s v in
      let (rest, more, same) = removal_lem p ps s s1 first ran in
      let (s', runs, valid', empty, all, hear) =
        removals_lem n s1 valid (ground (arith, first, rest)) in
      (s', rw ran runs, valid', empty, omega (arith, all, more), λ q. hear q ∙ ap hears (same q))
]

destructions_lem :
    (n : ℕ) (s : Server)
    → IsValid s
    → length s.destructions ≡ n
    → (s' : Server) × (run (destructions_of n) s ≡ ok s')
      × IsValid s'
      × (s'.destructions ≡ [])
      × (s'.removals ≡ s.removals)
      × ((q : ℕ) → hears (s'.objects q) ≡ hears (s.objects q))
unfolding run step
destructions_lem zero s v count = (s, refl, v, length_zero s.destructions count, refl, λ q. refl)
destructions_lem (suc n) s v count = elim (List-cases s.destructions) [
  | inl quiet ↦ absurd (ground (arith, quiet))
  | inr (p, ps, first) ↦
      let (s1, ran, valid, _) = run_destruction-IsValid s v in
      let (rest, kept, same) = destruction_lem p ps s s1 v first ran in
      let (s', runs, valid', empty, kept', hear) =
        destructions_lem n s1 valid (ground (arith, first, rest)) in
      (s', rw ran runs, valid', empty, kept' ∙ kept, λ q. hear q ∙ same q)
]

run-append : (es fs : List Event) (s s' : Server) → run es s ≡ ok s' → run (es ++ fs) s ≡ run fs s'
unfolding run
run-append [] fs s s' ran = ap (run fs) (ok-injective ran)
run-append (e ∷ es) fs s s' ran = elim (Outcome-cases (step e s)) [
  | inl (s1, did) ↦ rw did (run-append es fs s1 s' (sym (ap (λ o. o >>= run es) did) ∙ ran))
  | inr (f, failed) ↦ absurd (ground (arith, failed))
]

-- The functors that wait in the loops of a server, and those that they queue.
abbrev pub drain : Server → List Event
drain s =
    removals_of (length s.removals) ++ destructions_of (length s.removals + length s.destructions)

-- Whatever has happened to a valid server, once its loops have run the functors that wait and those that
-- these queue, each once: none is left, the connections that are open are exactly those that heard their
-- peers before, and each of these, and no other, has one entry in the map, under its own name.
pub drain_lem :
    (s : Server)
    → IsValid s
    → (s' : Server) × (run (drain s) s ≡ ok s')
      × IsValid s'
      × (s'.removals ≡ [])
      × (s'.destructions ≡ [])
      × ((p : ℕ) → opens (s'.objects p) ≡ hears (s.objects p))
      × ((p : ℕ) → count_key (conn_name s'.name p) s'.connections ≡ hears (s.objects p))
drain_lem s v =
    let (s1, ran, valid, empty, all, hear) = removals_lem (length s.removals) s v refl in
    let (s', ran', valid', none_left, kept, hear') = destructions_lem _ s1 valid all in
    let settled = λ (p : ℕ). settled_lem s' p valid' (kept ∙ empty) none_left in
    (
      s',
      run-append (removals_of (length s.removals)) _ s s1 ran ∙ ran',
      valid',
      kept ∙ empty,
      none_left,
      λ p. (settled p).0 ∙ (hear' p ∙ hear p),
      λ p. (settled p).2 ∙ ((settled p).0 ∙ (hear' p ∙ hear p)),
    )
