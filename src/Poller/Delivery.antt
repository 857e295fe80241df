-- ===== src/Poller/Delivery.antt =====
-- What each channel has after `fill_active_channels` of poller/Poller.cpp.
use reactor_network_lib.Poller.{Poller, PollFd, fd_of, mark, ℕ, List}
use reactor_network_lib.Poller.Inv.{IsValid}
use reactor_network_lib.Poller.Fill.{delivered, receive}
use reactor_network_lib.Channel.{Events, set_revents, any_event}
use reactor_network_lib.Channel.Store.{Store}
use reactor_network_lib.Common.{
  ◌≡◌, ℕ, List, Option, get_elem?, arith, Bool-cases, ◌∷◌, some, ◌≢◌, inr, ◌∙◌, suc, true, inl, ap,
  [], Option-cases, refl, zero, ◌==◌, sym,
}

receive_at :
    (channels : ℕ → Option ℕ) (f : PollFd) (store : Store) (q : ℕ)
    → (e : Events) × (receive channels f store q ≡ set_revents (store q) e)
unfolding set_revents
receive_at channels f store q = elim (Bool-cases (any_event f.revents)) [
  | inr miss ↦ ((store q).revents, rw miss refl)
  | inl hit ↦ elim (Option-cases (channels (fd_of f.fd))) [
    | inl lost ↦ ((store q).revents, rw (hit, lost) refl)
    | inr (p, bound) ↦ elim (Bool-cases (p == q)) [
      | inl here ↦ let same : p ≡ q = ground arith in (f.revents, rw (hit, bound, here, same) refl)
      | inr apart ↦ ((store q).revents, rw (hit, bound, apart) refl)
    ]
  ]
]

pub delivered_at :
    (channels : ℕ → Option ℕ) (fs : List PollFd) (store : Store) (q : ℕ)
    → (e : Events) × (delivered channels fs store q ≡ set_revents (store q) e)
unfolding set_revents
delivered_at channels [] store q = ((store q).revents, refl)
delivered_at channels (f ∷ fs) store q =
    let (e, first) = receive_at channels f store q in
    let (e', rest) = delivered_at channels fs (receive channels f store) q in
    (e', rest ∙ ap (λ c. set_revents c e') first)

-- No marked entry is of the channel `q`.
abbrev pub Spares : (ℕ → Option ℕ) → List PollFd → ℕ → Type 0
Spares channels fs q =
    (j : ℕ) (g : PollFd) → get_elem? fs j ≡ some g → channels (fd_of g.fd) ≢ some q

receive-Spares :
    (channels : ℕ → Option ℕ) (f : PollFd) (store : Store) (q : ℕ)
    → channels (fd_of f.fd) ≢ some q
    → receive channels f store q ≡ store q
receive-Spares channels f store q other = elim (Bool-cases (any_event f.revents)) [
  | inr miss ↦ rw miss refl
  | inl hit ↦ elim (Option-cases (channels (fd_of f.fd))) [
    | inl lost ↦ rw (hit, lost) refl
    | inr (p, bound) ↦ ground (arith, other)
  ]
]

delivered-Spares :
    (channels : ℕ → Option ℕ) (fs : List PollFd) (store : Store) (q : ℕ)
    → Spares channels fs q
    → delivered channels fs store q ≡ store q
delivered-Spares channels [] store q h = refl
delivered-Spares channels (f ∷ fs) store q h =
    delivered-Spares channels fs (receive channels f store) q (λ j g at. h (suc j) g at)
    ∙ receive-Spares channels f store q (h 0 f refl)

-- No two entries are of one channel.
abbrev pub AllApart : (ℕ → Option ℕ) → List PollFd → Type 0
AllApart channels fs =
    (i j q : ℕ) (f g : PollFd)
    → get_elem? fs i ≡ some f
    → get_elem? fs j ≡ some g
    → channels (fd_of f.fd) ≡ some q
    → channels (fd_of g.fd) ≡ some q
    → i ≡ j

-- A marked entry's channel has the entry's events.
pub delivered_marked :
    (channels : ℕ → Option ℕ) (fs : List PollFd) (store : Store) (i q : ℕ) (f : PollFd)
    → AllApart channels fs
    → get_elem? fs i ≡ some f
    → any_event f.revents ≡ true
    → channels (fd_of f.fd) ≡ some q
    → delivered channels fs store q ≡ set_revents (store q) f.revents
unfolding set_revents
delivered_marked channels [] store i q f apart at hit bound = absurd (ground arith)
delivered_marked channels (g ∷ fs) store zero q f apart at hit bound =
    let same : g ≡ f = ground arith in
    let first : receive channels g store q ≡ set_revents (store q) f.revents =
      rw (same, hit, bound) (ground arith) in
    delivered-Spares channels fs (receive channels g store) q
      (λ j k there also. absurd (ground (arith, apart 0 (suc j) q f k at there bound also)))
    ∙ first
delivered_marked channels (g ∷ fs) store (suc i) q f apart at hit bound =
    let (e, first) = receive_at channels g store q in
    delivered_marked channels fs (receive channels g store) i q f
      (λ j k r a b x y u v. ground (arith, apart (suc j) (suc k) r a b x y u v)) at hit bound
    ∙ ap (λ c. set_revents c f.revents) first

-- An entry that is marked keeps its descriptor.
pub mark_at :
    (es : List Events) (fs : List PollFd) (i : ℕ) (f : PollFd)
    → get_elem? (mark es fs) i ≡ some f
    → (g : PollFd) × (get_elem? fs i ≡ some g) × (g.fd ≡ f.fd)
mark_at [] fs i f at = (f, at, refl)
mark_at (e ∷ es) [] i f at = absurd (ground arith)
mark_at (e ∷ es) (g ∷ fs) zero f at = (g, refl, ground arith)
mark_at (e ∷ es) (g ∷ fs) (suc i) f at = mark_at es fs i f at

-- The entries of a valid poller are apart, also once they are marked.
pub mark-AllApart :
    (es : List Events) (s : Poller) → IsValid s → AllApart s.channels (mark es s.poll_fds)
mark-AllApart es s v i j q f g at there bound also =
    let (f', at', same) = mark_at es s.poll_fds i f at in
    let (g', there', same') = mark_at es s.poll_fds j g there in
    let (p, its, index) = v.listed i f' at' in
    let (r, its', index') = v.listed j g' there' in
    let one : p ≡ q = ground arith in let two : r ≡ q = ground arith in ground arith

at_mark :
    (es : List Events) (fs : List PollFd) (i : ℕ) (g : PollFd)
    → get_elem? fs i ≡ some g
    → (f : PollFd) × (get_elem? (mark es fs) i ≡ some f) × (f.fd ≡ g.fd)
at_mark [] fs i g at = (g, at, refl)
at_mark (e ∷ es) [] i g at = absurd (ground arith)
at_mark (e ∷ es) (f ∷ fs) zero g at = (record f { revents = e }, refl, ground arith)
at_mark (e ∷ es) (f ∷ fs) (suc i) g at = at_mark es fs i g at

-- A valid poller stays valid when its channels keep their descriptors and indices.
pub restore-IsValid :
    (s : Poller) (store : Store)
    → IsValid s
    → ((q : ℕ) → ((store q).fd ≡ (s.store q).fd) × ((store q).index ≡ (s.store q).index))
    → IsValid (record s { store = store })
restore-IsValid s store v same = record {
  registered = λ fd p bound.
      let (its, i, at, f, found, entry) = v.registered fd p bound in
      ((same p).0 ∙ its, i, (same p).1 ∙ at, f, found, entry);
  listed = λ i f found. let (p, bound, at) = v.listed i f found in (p, bound, (same p).1 ∙ at);
}

-- It stays valid when its entries are marked.
pub mark-IsValid :
    (es : List Events) (s : Poller)
    → IsValid s
    → IsValid (record s { poll_fds = mark es s.poll_fds })
mark-IsValid es s v = record {
  registered = λ fd p bound.
      let (its, i, at, g, found, entry) = v.registered fd p bound in
      let (f, there, same) = at_mark es s.poll_fds i g found in
      (its, i, at, f, there, ap fd_of same ∙ entry);
  listed = λ i f there.
      let (g, found, same) = mark_at es s.poll_fds i f there in
      let (p, bound, at) = v.listed i g found in
      (p, sym (ap (λ n. s.channels (fd_of n)) same) ∙ bound, at);
}
