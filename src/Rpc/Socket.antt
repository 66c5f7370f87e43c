-- ===== src/Rpc/Socket.antt =====
-- read(2) and write(2) on a connection, as an interface: what src/daemon/rpc_v2.cpp relies on of the
-- operating system. `pending` are the bytes that the peer has sent and that are not read yet, `sent`
-- those written so far.
use gogol.Prelude.{ℕ, suc, ◌≤◌, ◌≡◌, ◌≢◌, [], ◌++◌, length, take}
use gogol.Text.{Bytes}

pub record Socket : Type 1 where
  pub Fd : Type 0
  -- At most `n` bytes; none at all stands for a result that is not positive (end of file, error).
  pub read : Fd → ℕ → Bytes × Fd
  -- The number of bytes that were taken; 0 stands for a result that is not positive.
  pub write : Fd → Bytes → ℕ × Fd
  pub pending : Fd → Bytes
  pub sent : Fd → Bytes
  pub read_le : (fd : Fd) (n : ℕ) → length (read fd n).0 ≤ n
  pub read_takes : (fd : Fd) (n : ℕ) → pending fd ≡ (read fd n).0 ++ pending (read fd n).1
  pub read_keeps : (fd : Fd) (n : ℕ) → sent (read fd n).1 ≡ sent fd
  pub write_le : (fd : Fd) (s : Bytes) → (write fd s).0 ≤ length s
  pub write_sends : (fd : Fd) (s : Bytes) → sent (write fd s).1 ≡ sent fd ++ take (write fd s).0 s
  pub write_keeps : (fd : Fd) (s : Bytes) → pending (write fd s).1 ≡ pending fd

-- A read yields something whenever something is pending: the connection is not broken.
abbrev pub IsLive : Socket → Type 0
IsLive os = (fd : os.Fd) (n : ℕ) → os.pending fd ≢ [] → (os.read fd (suc n)).0 ≢ []
