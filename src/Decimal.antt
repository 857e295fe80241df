-- ===== src/Decimal.antt =====
-- `%d` and `%u` of snprintf, which tcp/SocketsOps.cpp, tcp/TcpServer.cpp and tcp/TcpClient.cpp call on
-- numbers that are not negative: the decimal digits of a number, as bytes.
use reactor_network_lib.Common.{
  ℕ, List, arith, [], suc, Bool, ◌∷◌, ◌++◌, ◌≡◌, ◌<◌, length, ◌/◌, leb, true, ◌*◌, false,
  Bool-cases, ◌∙◌, sym, ◌≤◌, ◌^◌, refl, if◌then◌else◌, ◌&&◌, ◌+◌, ltb, ap, length-append, ◌%◌, ◌-◌,
  inl, inr, zero,
}

-- The last `fuel` digits.
pub decimal_on : ℕ → ℕ → List ℕ
decimal_on zero n = []
decimal_on (suc fuel) n =
    let front = decimal_on fuel (n / 10) in
    if ltb n 10 then (48 + n) ∷ [] else front ++ (48 + n % 10) ∷ []

-- A number has fewer digits than its successor counts.
unfoldable pub decimal : ℕ → List ℕ
unfolding decimal_on
decimal n = decimal_on (suc n) n

abbrev pub is_digit : ℕ → Bool
is_digit d = leb 48 d && leb d 57

abbrev pub AllDigits : List ℕ → Type 0
AllDigits [] = Unit {0}
AllDigits (d ∷ ds) = (is_digit d ≡ true) × AllDigits ds

-- The number before the first byte that is no digit, and what follows it.
pub scan : ℕ → List ℕ → ℕ × List ℕ
scan n [] = (n, [])
scan n (d ∷ ds) = let rest = scan (n * 10 + (d - 48)) ds in if is_digit d then rest else (n, d ∷ ds)

-- A text that does not begin with a digit.
abbrev pub Stops : List ℕ → Type 0
Stops [] = Unit {0}
Stops (d ∷ ds) = is_digit d ≡ false

AllDigits-append : (xs ys : List ℕ) → AllDigits xs → AllDigits ys → AllDigits (xs ++ ys)
AllDigits-append [] ys h k = k
AllDigits-append (x ∷ xs) ys h k = (h.0, AllDigits-append xs ys h.1 k)

pub decimal-AllDigits : (fuel n : ℕ) → AllDigits (decimal_on fuel n)
unfolding decimal_on
decimal-AllDigits zero n = tt
decimal-AllDigits (suc fuel) n = elim (Bool-cases (ltb n 10)) [
  | inl small ↦ rw small (ground arith, tt)
  | inr large ↦ rw large (
      AllDigits-append (decimal_on fuel (n / 10)) _ (decimal-AllDigits fuel (n / 10))
        (ground arith, tt))
]

scan-append :
    (m n : ℕ) (xs ys : List ℕ) → AllDigits xs → scan m xs ≡ (n, []) → scan m (xs ++ ys) ≡ scan n ys
unfolding scan
scan-append m n [] ys h e = ground arith
scan-append m n (x ∷ xs) ys h e = ground (arith, scan-append (m * 10 + (x - 48)) n xs ys h.1)

-- Scanning the digits of a number gives the number.
scan-decimal_on : (fuel n : ℕ) → n < fuel → scan 0 (decimal_on fuel n) ≡ (n, [])
unfolding scan decimal_on
scan-decimal_on zero n h = absurd (omega arith)
scan-decimal_on (suc fuel) n h = elim (Bool-cases (ltb n 10)) [
  | inl small ↦ rw small (ground arith)
  | inr large ↦ rw large (
      scan-append 0 (n / 10) (decimal_on fuel (n / 10)) _ (decimal-AllDigits fuel (n / 10))
        (scan-decimal_on fuel (n / 10) (ground arith))
      ∙ (let digit : is_digit (48 + n % 10) ≡ true = ground arith in
          let whole : n / 10 * 10 + (48 + n % 10 - 48) ≡ n = omega arith in rw (digit, whole) refl))
]

scan-Stops : (n : ℕ) (rest : List ℕ) → Stops rest → scan n rest ≡ (n, rest)
unfolding scan
scan-Stops n [] h = refl
scan-Stops n (d ∷ ds) h = ground arith

-- The digits of a number, and what follows them, are read back.
pub scan-decimal : (n : ℕ) (rest : List ℕ) → Stops rest → scan 0 (decimal n ++ rest) ≡ (n, rest)
unfolding decimal
scan-decimal n rest h =
    scan-append 0 n (decimal n) rest (decimal-AllDigits (suc n) n)
      (scan-decimal_on (suc n) n (omega arith))
    ∙ scan-Stops n rest h

-- Different numbers have different digits.
pub decimal-injective : (m n : ℕ) → decimal m ≡ decimal n → m ≡ n
decimal-injective m n e =
    let same : (m, []) ≡ (n, []) =
      sym (scan-decimal m [] tt) ∙ ap (λ t. scan 0 (t ++ [])) e ∙ scan-decimal n [] tt in
    ap (λ p. p.0) same

length-decimal_on : (fuel n : ℕ) → length (decimal_on fuel n) ≤ fuel
unfolding decimal_on
length-decimal_on zero n = omega arith
length-decimal_on (suc fuel) n = ground (
  arith,
  length-append (decimal_on fuel (n / 10)) ((48 + n % 10) ∷ []),
  length-decimal_on fuel (n / 10),
)

-- A number below 10 ^ k has at most k digits.
pub length-decimal : (k fuel n : ℕ) → n < 10 ^ suc k → length (decimal_on fuel n) ≤ suc k
unfolding decimal_on
length-decimal k zero n h = omega arith
length-decimal zero (suc fuel) n h = ground arith
length-decimal (suc k) (suc fuel) n h =
    let fits : n / 10 < 10 ^ suc k = grind arith in
    ground (
      arith,
      length-append (decimal_on fuel (n / 10)) ((48 + n % 10) ∷ []),
      length-decimal k fuel (n / 10) fits,
    )
