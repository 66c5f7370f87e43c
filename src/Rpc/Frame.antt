-- ===== src/Rpc/Frame.antt =====
-- raw_read, raw_write, frame_read and frame_write of src/daemon/rpc_v2.cpp. A call gives its result
-- and the connection behind it.
pub mod Reading
pub mod Writing
pub mod Delivery
mod Tests
use gogol.Prelude.{
  ℕ, zero, suc, ◌*◌, ◌%◌, ◌^◌, ◌-◌, Bool, true, false, ◌&&◌, Option, none, some, List, [], ◌∷◌,
  ◌++◌, ltb, ◌==◌, if◌then◌else◌, is_nil, length, drop,
}
use gogol.Text.{Bytes}
use gogol.Rpc.Buffer.{le32, le_value}
use gogol.Rpc.Socket.{Socket}

-- Bytes in front of those of a read that went well.
abbrev put_front {ℓ} : {F : Type ℓ} → Bytes → Option Bytes × F → Option Bytes × F
put_front s (none, fd) = (none, fd)
put_front s (some t, fd) = (some (s ++ t), fd)

abbrev pub frame_limit : ℕ
frame_limit = 64 * 1024 * 1024

-- An empty vector stands for a failure.
abbrev or_empty {ℓ} : {F : Type ℓ} → Option Bytes × F → Bytes × F
or_empty (none, fd) = ([], fd)
or_empty (some s, fd) = (s, fd)

module _ (os : Socket) where
  open os use {Fd, read, write}

  -- The loop of raw_write, with fuel for the rounds: a round that goes on has written a byte.
  raw_write_loop : ℕ → Fd → Bytes → Bool × Fd
  raw_write_loop fuel fd [] = (true, fd)
  raw_write_loop zero fd (b ∷ s) = (false, fd)
  raw_write_loop (suc fuel) fd (b ∷ s) =
      let (n, fd') = write fd (b ∷ s) in
      elim n [ zero ↦ (false, fd') | suc m ↦ raw_write_loop fuel fd' (drop m s) ]

  unfoldable pub raw_write : Fd → Bytes → Bool × Fd
  unfolding raw_write_loop
  raw_write fd s = raw_write_loop (length s) fd s

  -- The loop of raw_read, with fuel for the rounds: a round that goes on has read a byte.
  raw_read_loop : ℕ → Fd → ℕ → Option Bytes × Fd
  raw_read_loop fuel fd zero = (some [], fd)
  raw_read_loop zero fd (suc len) = (none, fd)
  raw_read_loop (suc fuel) fd (suc len) =
      let (s, fd') = read fd (suc len) in
      elim s [
        | [] ↦ (none, fd')
        | b ∷ t ↦ put_front (b ∷ t) (raw_read_loop fuel fd' (len - length t))
      ]

  -- The bytes, or none for the result `false`.
  unfoldable pub raw_read : Fd → ℕ → Option Bytes × Fd
  unfolding raw_read_loop
  raw_read fd len = raw_read_loop len fd len

  unfoldable pub frame_write : Fd → Bytes → Bool × Fd
  frame_write fd s =
      let (header_done, fd') = raw_write fd (le32 (length s % 2 ^ 32)) in
      elim header_done [
        | false ↦ (false, fd')
        | true ↦ if is_nil s then (true, fd') else raw_write fd' s
      ]

  -- The payload behind a header that was read.
  frame_payload : Option Bytes × Fd → Bytes × Fd
  frame_payload (none, fd) = ([], fd)
  frame_payload (some header, fd) =
      let len = le_value header in
      if len == 0
      then ([], fd)
      else if ltb frame_limit len
      then ([], fd)
      else or_empty (raw_read fd len)

  pub frame_read : Fd → Bytes × Fd
  frame_read fd = frame_payload (raw_read fd 4)
