-- ===== src/Tcp/Address/Text.antt =====
-- The text of an address, and back.
use reactor_network_lib.Tcp.Address.{
  SockaddrIn, Network, nothing, host_port, to_host_port, network_to_host16, host_to_network16,
  from_host_port, address, af_inet, zeros, List, ℕ,
}
use reactor_network_lib.Decimal.{decimal, scan, scan-decimal, length-decimal}
use reactor_network_lib.Common.{
  List, ℕ, ◌≡◌, ◌∷◌, ◌<◌, ◌++◌, some, length, [], ◌==◌, if◌then◌else◌, false, ◌≤◌, refl, suc, arith,
  length-append, take-of_length_le, ap, sym, ◌∙◌, append-nil,
}

abbrev pub NoColon : List ℕ → Type 0
NoColon [] = Unit {0}
NoColon (b ∷ bs) = (b == 58 ≡ false) × NoColon bs

-- What the C library documents: the two byte orders of a port are inverse to each other, and the text of
-- a host is at most INET_ADDRSTRLEN - 1 bytes without a colon, which is read back as the host.
pub record IsLawful (n : Network) : Type 0 where
  pub ntohs_bound : (p : ℕ) → p < 65536 → n.ntohs p < 65536
  pub htons-ntohs : (p : ℕ) → p < 65536 → n.htons (n.ntohs p) ≡ p
  pub printed : ℕ → List ℕ
  pub inet_ntop_lem : (a : ℕ) → a < 4294967296 → n.inet_ntop a ≡ some (printed a)
  pub length-printed : (a : ℕ) → a < 4294967296 → length (printed a) ≤ 15
  pub printed-NoColon : (a : ℕ) → a < 4294967296 → NoColon (printed a)
  pub inet_pton_lem : (a : ℕ) → a < 4294967296 → n.inet_pton (printed a) ≡ some a

-- What stands before the first colon, and after it.
pub split_colon : List ℕ → List ℕ × List ℕ
split_colon [] = ([], [])
split_colon (b ∷ bs) =
    let (front, back) = split_colon bs in if b == 58 then ([], bs) else (b ∷ front, back)

split_colon-append :
    (host port : List ℕ) → NoColon host → split_colon (host ++ 58 ∷ port) ≡ (host, port)
unfolding split_colon
split_colon-append [] port h = refl
split_colon-append (b ∷ bs) port h = rw (h.0, split_colon-append bs port h.1) refl

-- An address that IPv4 has.
pub record IsAddress (addr : SockaddrIn) : Type 0 where
  pub family : addr.sin_family ≡ af_inet
  pub port : addr.sin_port < 65536
  pub host : addr.s_addr < 4294967296

-- The text is never cut off by the 32 bytes.
host_port_lem :
    (n : Network) (addr : SockaddrIn) (law : IsLawful n)
    → IsAddress addr
    → host_port n addr ≡ law.printed addr.s_addr ++ 58 ∷ decimal (n.ntohs addr.sin_port)
unfolding host_port to_host_port network_to_host16 decimal
host_port_lem n addr law valid =
    let p = n.ntohs addr.sin_port in
    let digits : length (decimal p) ≤ 5 =
      length-decimal 4 (suc p) p (omega (arith, law.ntohs_bound addr.sin_port valid.port)) in
    let short : length (law.printed addr.s_addr ++ 58 ∷ decimal p) ≤ 31 = omega (
      arith,
      length-append (law.printed addr.s_addr) (58 ∷ decimal p),
      digits,
      law.length-printed addr.s_addr valid.host,
    ) in
    rw (law.inet_ntop_lem addr.s_addr valid.host) (take-of_length_le 31 _ short)

-- The host and the port that a reader takes from a text.
pub read_host_port : List ℕ → List ℕ × ℕ
unfolding split_colon
read_host_port t = let (host, port) = split_colon t in (host, (scan 0 port).0)

read_host_port_lem :
    (host : List ℕ) (port : ℕ)
    → NoColon host
    → read_host_port (host ++ 58 ∷ decimal port) ≡ (host, port)
unfolding read_host_port
read_host_port_lem host port h = rw (split_colon-append host (decimal port) h) (
    ap (λ t. (host, (scan 0 t).0)) (sym (append-nil (decimal port)))
    ∙ ap (λ q. (host, q.0)) (scan-decimal port [] tt))

from_host_port_lem :
    (n : Network) (addr : SockaddrIn) (law : IsLawful n)
    → IsAddress addr
    → from_host_port n (law.printed addr.s_addr) (n.ntohs addr.sin_port) zeros ≡ (addr, nothing)
unfolding from_host_port host_to_network16
from_host_port_lem n addr law valid = ground (
  arith,
  law.inet_pton_lem addr.s_addr valid.host,
  law.htons-ntohs addr.sin_port valid.port,
  valid.family,
)

-- The text of an address is its host and its port, whole: an address that is made from the two is the
-- address itself, down to the byte order of its port, and nothing is logged.
pub address-host_port :
    (n : Network) (addr : SockaddrIn)
    → IsLawful n
    → IsAddress addr
    → let (host, port) = read_host_port (host_port n addr) in address n host port ≡ (addr, nothing)
unfolding address
address-host_port n addr law valid =
    ap (λ t. (let (host, port) = read_host_port t in address n host port))
      (host_port_lem n addr law valid)
    ∙ (ap (λ q. address n q.0 q.1)
          (read_host_port_lem (law.printed addr.s_addr) (n.ntohs addr.sin_port)
            (law.printed-NoColon addr.s_addr valid.host))
        ∙ from_host_port_lem n addr law valid)
