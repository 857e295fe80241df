-- ===== src/Tcp/Address/Tests.antt =====
-- A C library on a little-endian machine that prints a host as one number, on which the theorems on
-- addresses are applied.
use reactor_network_lib.Tcp.Address.{
  SockaddrIn, Network, nothing, host_port, address, af_inet, ℕ, some, List,
}
use reactor_network_lib.Tcp.Address.Text.{
  IsLawful, IsAddress, NoColon, read_host_port, address-host_port,
}
use reactor_network_lib.Decimal.{
  decimal, scan, scan-decimal, length-decimal, decimal-AllDigits, AllDigits,
}
use reactor_network_lib.Common.{
  ℕ, some, List, arith, ◌≡◌, ◌%◌, ◌<◌, ◌∷◌, suc, refl, ◌++◌, ◌*◌, [], ap, ◌+◌, ◌/◌,
}

-- The two bytes of a port, swapped.
swap16 : ℕ → ℕ
swap16 p = p % 256 * 256 + p / 256

abbrev little_endian : Network
little_endian = record {
  htons = swap16;
  ntohs = swap16;
  htonl = λ a. a;
  ntohl = λ a. a;
  htobe64 = λ a. a;
  be64toh = λ a. a;
  inet_ntop = λ a. some (decimal a);
  inet_pton = λ t. some (scan 0 (t ++ [])).0;
}

swap16_bound : (p : ℕ) → p < 65536 → swap16 p < 65536
unfolding swap16
swap16_bound p h = omega arith

swap16-swap16 : (p : ℕ) → p < 65536 → swap16 (swap16 p) ≡ p
unfolding swap16
swap16-swap16 p h = omega arith

AllDigits-NoColon : (ds : List ℕ) → AllDigits ds → NoColon ds
AllDigits-NoColon [] h = tt
AllDigits-NoColon (d ∷ ds) h = (ground (arith, h.0), AllDigits-NoColon ds h.1)

little_endian-IsLawful : IsLawful little_endian
unfolding decimal
little_endian-IsLawful = record {
  ntohs_bound = swap16_bound;
  htons-ntohs = swap16-swap16;
  printed = decimal;
  inet_ntop_lem = λ a h. refl;
  length-printed = λ a h. omega (arith, length-decimal 9 (suc a) a (omega (arith, h)));
  printed-NoColon = λ a h. AllDigits-NoColon (decimal a) (decimal-AllDigits (suc a) a);
  inet_pton_lem = λ a h. ap (λ q. some q.0) (scan-decimal a [] tt);
}

-- 127, port 80 of the host, which the network has as 20480.
abbrev local : SockaddrIn
local = record { sin_family = af_inet; sin_port = 20480; s_addr = 127 }

local-IsAddress : IsAddress local
local-IsAddress = record { family = refl; port = omega arith; host = omega arith }

address-host_port_example :
    let (host, port) = read_host_port (host_port little_endian local) in
    address little_endian host port ≡ (local, nothing)
address-host_port_example =
    address-host_port little_endian local little_endian-IsLawful local-IsAddress
