-- ===== src/Tcp/Server/Serving/Answered.antt =====
-- A server after one of its connections has answered.
use reactor_network_lib.Tcp.Server.{Server, object_at, List}
use reactor_network_lib.Tcp.Server.Inv.{IsValid}
use reactor_network_lib.Tcp.Server.Serving.Objects.{waits}
use reactor_network_lib.Tcp.Connection.{Connection}
use reactor_network_lib.Tcp.Connection.Stream.{stream}
use reactor_network_lib.Tcp.Connection.Answering.Runs.{IsReady}
use reactor_network_lib.Common.{
  List, ℕ, [], ◌≡◌, true, arith, inl, ap, sym, ◌∙◌, inr, ◌⊎◌, Bool-cases, ◌==◌, if◌then◌else◌,
  append-nil, ◌++◌,
}

pub placed_at :
    (objects : ℕ → Connection) (p : ℕ) (c : Connection) (q : ℕ)
    → (object_at objects p c q ≡ c) ⊎ (object_at objects p c q ≡ objects q)
placed_at objects p c q = elim (Bool-cases (p == q)) [
  | inl here ↦ inl (ground (arith, here))
  | inr apart ↦ inr (ground (arith, apart))
]

pub told_lem :
    (p q : ℕ) (c : Connection) (s : Server) (out : List ℕ)
    → waits (s.objects p) ≡ true
    → stream c ≡ stream (s.objects p) ++ out
    → waits (object_at s.objects p c q) ≡ true
    → (waits (s.objects q) ≡ true)
      × (stream (object_at s.objects p c q) ≡ stream (s.objects q) ++ (if p == q then out else []))
told_lem p q c s out hearing same h = elim (Bool-cases (p == q)) [
  | inl here ↦
      let one : p ≡ q = ground arith in
      let placed : object_at s.objects p c q ≡ c = ground (arith, here) in
      (
        ap (λ k. waits (s.objects k)) (sym one) ∙ hearing,
        ap stream placed
            ∙ (same
                ∙ (ap (λ k. stream (s.objects k) ++ out) one
                    ∙ ap (λ b. stream (s.objects q) ++ (if b then out else [])) (sym here))),
      )
  | inr apart ↦
      let kept : object_at s.objects p c q ≡ s.objects q = ground (arith, apart) in
      (
        ap waits (sym kept) ∙ h,
        ap stream kept
            ∙ (sym (append-nil (stream (s.objects q)))
                ∙ ap (λ b. stream (s.objects q) ++ (if b then out else [])) (sym apart)),
      )
]

-- A connection that has answered takes the place of the one that it was.
pub answered-IsValid :
    (p : ℕ) (c : Connection) (s : Server)
    → IsValid s
    → IsReady (s.objects p)
    → IsReady c
    → waits c ≡ waits (s.objects p)
    → IsValid (record s { objects = object_at s.objects p c })
answered-IsValid p c s v old new hears_still = record {
  keyed = v.keyed;
  alive = λ q. ground (arith, v.alive q, old.state, new.state);
  listed = λ q. ground (arith, v.listed q, hears_still);
  settled = λ q. ground (arith, v.settled q, new.state);
  fresh = λ q h. ground (arith, v.fresh q h, old.state, new.state);
  in_turn = v.in_turn;
}
