-- ===== src/Tcp/Socket/Flags.antt =====
-- `setNonBlockAndCloseOnExec` of tcp/SocketsOps.cpp, which the builds for Valgrind call.
-- A word of flags is the set of its bits. ::fcntl is the record `Fcntl`; where it fails it returns -1,
-- a word with every bit set, and the code goes on with that.
use reactor_network_lib.Common.{ℕ, Bool, if◌then◌else◌, ◌≡◌, ◌==◌, ◌∙◌, true, ap}

abbrev pub Word : Type 0
Word = ℕ → Bool

-- `flags |= bit`
abbrev pub set_bit : ℕ → Word → Word
set_bit bit flags k = if k == bit then true else flags k

pub record Fcntl : Type 1 where
  pub State : Type 0
  pub o_nonblock : ℕ
  pub fd_cloexec : ℕ
  pub get_fl : ℕ → State → Word
  pub set_fl : ℕ → Word → State → State
  pub get_fd : ℕ → State → Word
  pub set_fd : ℕ → Word → State → State

-- The status flags and the flags of the descriptor are two words, and each is read as it was set.
pub record IsLawful (F : Fcntl) : Type 0 where
  pub get-set_fl : (fd : ℕ) (w : Word) (s : F.State) → F.get_fl fd (F.set_fl fd w s) ≡ w
  pub get-set_fd : (fd : ℕ) (w : Word) (s : F.State) → F.get_fd fd (F.set_fd fd w s) ≡ w
  pub get_fl-set_fd :
      (fd : ℕ) (w : Word) (s : F.State) → F.get_fl fd (F.set_fd fd w s) ≡ F.get_fl fd s
  pub get_fd-set_fl :
      (fd : ℕ) (w : Word) (s : F.State) → F.get_fd fd (F.set_fl fd w s) ≡ F.get_fd fd s

module _ (F : Fcntl) where
  pub set_non_block_and_close_on_exec : ℕ → F.State → F.State
  set_non_block_and_close_on_exec sockfd s =
      let s' = F.set_fl sockfd (set_bit F.o_nonblock (F.get_fl sockfd s)) s in
      F.set_fd sockfd (set_bit F.fd_cloexec (F.get_fd sockfd s')) s'

  -- The descriptor does not block and is closed on exec, and no other flag of it changes.
  pub set_non_block_and_close_on_exec_lem :
      (L : IsLawful F) (fd : ℕ) (s : F.State)
      → (F.get_fl fd (set_non_block_and_close_on_exec fd s) ≡ set_bit F.o_nonblock (F.get_fl fd s))
        × (F.get_fd fd (set_non_block_and_close_on_exec fd s)
            ≡ set_bit F.fd_cloexec (F.get_fd fd s))
  unfolding set_non_block_and_close_on_exec
  set_non_block_and_close_on_exec_lem L fd s =
      let flags = set_bit F.o_nonblock (F.get_fl fd s) in
      let s' = F.set_fl fd flags s in
      let flags' = set_bit F.fd_cloexec (F.get_fd fd s') in
      (
        L.get_fl-set_fd fd flags' s' ∙ L.get-set_fl fd flags s,
        L.get-set_fd fd flags' s' ∙ ap (set_bit F.fd_cloexec) (L.get_fd-set_fl fd flags s),
      )
