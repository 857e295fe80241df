-- ===== src/Tcp/Server/Serving/Safety.antt =====
-- A server that serves its connections, whatever comes in and in whatever order.
use reactor_network_lib.Tcp.Server.{Server, List}
use reactor_network_lib.Tcp.Server.Serving.{Event, run}
use reactor_network_lib.Tcp.Server.Serving.Objects.{waits}
use reactor_network_lib.Tcp.Server.Serving.Home.{IsAtHome, step-IsAtHome}
use reactor_network_lib.Tcp.Server.Serving.Steps.{IsServing, AllPieces, Stepped, step_lem, own}
use reactor_network_lib.Tcp.Connection.Stream.{stream}
use reactor_network_lib.Common.{
  List, ℕ, ◌≡◌, ◌∷◌, ok, ◌++◌, [], ◌<◌, true, refl, arith, ap, ◌∙◌, sym, append-nil, ◌>>=◌,
  append_assoc, false, ◌⊎◌, Bool-cases, inl, inr, Then-ok,
}

module _ (answer : List ℕ → List ℕ) where
  -- For a valid server whose pool has no loops, so that its base loop serves all; whose connections that
  -- wait for input are open, have valid buffers and no input left, and whose message callbacks take all
  -- the input and send what `answer` makes of it; for fewer connections than an `int` can count, pieces of
  -- input that a `readv` can bring, at most the writable bytes and 65536, and input and output that fit into the buffers: whatever the order in
  -- which peers arrive and close, bytes come in, sockets are writable and the loop runs its functors, no
  -- assertion fails, also none on the thread, nothing undefined is done in the server, a connection or a
  -- buffer, and the server and its connections stay so.
  pub serve_lem :
      (es : List Event) (s : Server)
      → IsServing answer es s
      → IsAtHome s
      → AllPieces answer es s
      → (s' : Server) × (run answer es s ≡ ok s') × IsServing answer [] s' × IsAtHome s'
  unfolding run Stepped
  serve_lem [] s v home pieces = (s, refl, v, home)
  serve_lem (e ∷ es) s v home pieces =
      let (s', ran, v', _, _) = step_lem answer e es s v pieces.0 in
      let pieces' = Then-ok (AllPieces answer es) pieces.1 ran in
      let (s'', runs, v'', home'') =
        serve_lem es s' v' (step-IsAtHome answer e s s' ran home) pieces' in
      (s'', ap (λ m. m >>= run answer es) ran ∙ runs, v'', home'')

  -- The answers that a connection owes for a list of events.
  abbrev pub owns : ℕ → List Event → List ℕ
  owns p [] = []
  owns p (e ∷ es) = own answer p e ++ owns p es

  waiting_lem :
      (es : List Event) (s s' : Server) (p : ℕ)
      → IsServing answer es s
      → AllPieces answer es s
      → run answer es s ≡ ok s'
      → p < s.next_conn_id
      → waits (s'.objects p) ≡ true
      → (waits (s.objects p) ≡ true) × (stream (s'.objects p) ≡ stream (s.objects p) ++ owns p es)
  unfolding run Stepped
  waiting_lem [] s s' p v pieces ran old h =
      let same : s ≡ s' = ground (arith, ran) in
      (
        ap (λ r. waits (r.objects p)) same ∙ h,
        ap (λ r. stream (r.objects p)) (sym same) ∙ sym (append-nil (stream (s.objects p))),
      )
  waiting_lem (e ∷ es) s s' p v pieces ran old h =
      let (s1, first, v', next, told) = step_lem answer e es s v pieces.0 in
      let pieces' = Then-ok (AllPieces answer es) pieces.1 first in
      let rest : run answer es s1 ≡ ok s' = sym (ap (λ m. m >>= run answer es) first) ∙ ran in
      let (hears1, same) = waiting_lem es s1 s' p v' pieces' rest (omega (arith, next, old)) h in
      let (hears0, told1) = told p old hears1 in
      (
        hears0,
        same
            ∙ (ap (λ l. l ++ owns p es) told1
                ∙ append_assoc (stream (s.objects p)) (own answer p e) (owns p es)),
      )

  -- In a run of a valid server whose connections that wait for input are open, have valid buffers and no
  -- input left, with pieces of input that a `readv` can bring and with room for the connections, the input and
  -- the output: a connection that was there before it either does not wait for input any more after it, or
  -- waited before it as well; and then what it sent or keeps to send is what it was before and then its
  -- answers to its own pieces of input, in their order, whatever happens to the other connections.
  pub serve_stream :
      (es : List Event) (s s' : Server) (p : ℕ)
      → IsServing answer es s
      → AllPieces answer es s
      → run answer es s ≡ ok s'
      → p < s.next_conn_id
      → (waits (s'.objects p) ≡ false)
        ⊎ (waits (s.objects p) ≡ true) × (stream (s'.objects p) ≡ stream (s.objects p) ++ owns p es)
  serve_stream es s s' p v pieces ran old = elim (Bool-cases (waits (s'.objects p))) [
    | inl still ↦ inr (waiting_lem es s s' p v pieces ran old still)
    | inr over ↦ inl over
  ]
