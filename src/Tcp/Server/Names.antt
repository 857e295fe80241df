-- ===== src/Tcp/Server/Names.antt =====
-- The names of connections, and the map from them.
use reactor_network_lib.Buffer.{same_bytes}
use reactor_network_lib.Common.{
  ℕ, List, ◌≡◌, ◌∷◌, arith, [], if◌then◌else◌, ◌==◌, ◌+◌, refl, ap, Bool-cases, drop, inl, ◌∙◌, inr,
  sym,
}
use reactor_network_lib.Tcp.Server.{count_key, erase_key, insert_key, conn_name}
use reactor_network_lib.Decimal.{decimal-injective}
use reactor_network_lib.Buffer.Equality.{same_bytes_iff}

-- The entries of a connection.
abbrev pub entries : ℕ → List (List ℕ × ℕ) → ℕ
entries p [] = 0
entries p ((k, q) ∷ es) = (if q == p then 1 else 0) + entries p es

-- Each entry stands under the name of its connection.
abbrev pub Keyed : List ℕ → List (List ℕ × ℕ) → Type 0
Keyed name [] = Unit {0}
Keyed name ((k, q) ∷ es) = (k ≡ conn_name name q) × Keyed name es

conn_name-injective : (name : List ℕ) (p q : ℕ) → conn_name name p ≡ conn_name name q → p ≡ q
conn_name-injective [] p q e = decimal-injective p q (ap (drop 1) e)
conn_name-injective (c ∷ cs) p q e = conn_name-injective cs p q (ap (drop 1) e)

same_name : (name : List ℕ) (p q : ℕ) → same_bytes (conn_name name p) (conn_name name q) ≡ (p == q)
same_name name p q = elim (Bool-cases (p == q)) [
  | inl eq ↦ let e : p ≡ q = ground arith in rw e ((same_bytes_iff _ _).1 refl ∙ ground arith)
  | inr ne ↦ elim (Bool-cases (same_bytes (conn_name name p) (conn_name name q))) [
    | inl same ↦ let e = conn_name-injective name p q ((same_bytes_iff _ _).0 same) in ground arith
    | inr other ↦ other ∙ sym ne
  ]
]

head_test :
    (name k : List ℕ) (p q : ℕ) → k ≡ conn_name name q → same_bytes (conn_name name p) k ≡ (p == q)
head_test name k p q e = rw e (same_name name p q)

pub count_key-entries :
    (name : List ℕ) (p : ℕ) (es : List (List ℕ × ℕ))
    → Keyed name es
    → count_key (conn_name name p) es ≡ entries p es
unfolding count_key
count_key-entries name p [] h = refl
count_key-entries name p ((k, q) ∷ es) h =
    ground (arith, head_test name k p q h.0, count_key-entries name p es h.1)

pub erase_key-Keyed :
    (name key : List ℕ) (es : List (List ℕ × ℕ)) → Keyed name es → Keyed name (erase_key key es)
unfolding erase_key
erase_key-Keyed name key [] h = tt
erase_key-Keyed name key ((k, q) ∷ es) h = ground (arith, erase_key-Keyed name key es h.1)

pub erase_key-entries :
    (name : List ℕ) (p q : ℕ) (es : List (List ℕ × ℕ))
    → Keyed name es
    → entries q (erase_key (conn_name name p) es) ≡ (if p == q then 0 else entries q es)
unfolding erase_key
erase_key-entries name p q [] h = ground arith
erase_key-entries name p q ((k, r) ∷ es) h =
    ground (arith, head_test name k p r h.0, erase_key-entries name p q es h.1)

pub insert_key-Keyed :
    (name : List ℕ) (p : ℕ) (es : List (List ℕ × ℕ))
    → Keyed name es
    → Keyed name (insert_key (conn_name name p) p es)
unfolding insert_key
insert_key-Keyed name p [] h = (refl, tt)
insert_key-Keyed name p ((k, q) ∷ es) h = ground (arith, insert_key-Keyed name p es h.1)

-- A connection with a new number gets an entry of its own.
pub insert_key-entries :
    (name : List ℕ) (p q : ℕ) (es : List (List ℕ × ℕ))
    → Keyed name es
    → entries p es ≡ 0
    → entries q (insert_key (conn_name name p) p es) ≡ entries q es + (if p == q then 1 else 0)
unfolding insert_key
insert_key-entries name p q [] h new = ground arith
insert_key-entries name p q ((k, r) ∷ es) h new =
    let rest : entries p es ≡ 0 = ground arith in
    ground (arith, head_test name k p r h.0, insert_key-entries name p q es h.1 rest)
