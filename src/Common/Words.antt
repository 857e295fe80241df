-- ===== src/Common/Words.antt =====
-- `size_t`: 64-bit unsigned arithmetic, with its wrap-around written out.
use Prim.Native.Nat.{ℕ, ◌+◌, ◌-◌, ◌%◌, ◌^◌}

abbrev pub size_mod : ℕ
size_mod = 2 ^ 64

abbrev pub add_size : ℕ → ℕ → ℕ
add_size a b = (a + b) % size_mod

abbrev pub sub_size : ℕ → ℕ → ℕ
sub_size a b = (a + size_mod - b) % size_mod

-- No vector is longer than this (`std::vector<char>::max_size`).
abbrev pub max_size : ℕ
max_size = 2 ^ 63
