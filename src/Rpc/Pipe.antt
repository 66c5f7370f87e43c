-- ===== src/Rpc/Pipe.antt =====
-- A connection that moves one byte at a time: a concrete value of the interface of Rpc.Socket, at
-- which the theorems over sockets are tested.
use gogol.Prelude.{
  ℕ, zero, suc, ◌≤◌, ◌≡◌, ◌≢◌, refl, sym, [], ◌∷◌, ◌++◌, append-nil, arith, length, take,
}
use gogol.Text.{Bytes}
use gogol.Rpc.Socket.{Socket, IsLive}
use gogol.Rpc.Frame.Writing.{IsOpen}

pub record Pipe : Type 0 where
  pub incoming : Bytes
  pub outgoing : Bytes

abbrev pop_byte : Bytes → Bytes → Bytes × Pipe
pop_byte [] out = ([], record { incoming = []; outgoing = out })
pop_byte (b ∷ s) out = (b ∷ [], record { incoming = s; outgoing = out })

abbrev pipe_read : Pipe → ℕ → Bytes × Pipe
pipe_read p zero = ([], p)
pipe_read p (suc n) = pop_byte p.incoming p.outgoing

abbrev pipe_write : Pipe → Bytes → ℕ × Pipe
pipe_write p [] = (0, p)
pipe_write p (b ∷ s) = (1, record p { outgoing = p.outgoing ++ b ∷ [] })

pub read_le : (p : Pipe) (n : ℕ) → length (pipe_read p n).0 ≤ n
read_le p zero = omega arith
read_le p (suc n) = go p.incoming
  where
    go : (s : Bytes) → length (pop_byte s p.outgoing).0 ≤ suc n
    go [] = omega arith
    go (b ∷ s) = omega arith

pub read_takes : (p : Pipe) (n : ℕ) → p.incoming ≡ (pipe_read p n).0 ++ (pipe_read p n).1.incoming
read_takes p zero = refl
read_takes p (suc n) = go p.incoming
  where
    go : (s : Bytes) → s ≡ (pop_byte s p.outgoing).0 ++ (pop_byte s p.outgoing).1.incoming
    go [] = refl
    go (b ∷ s) = refl

pub read_keeps : (p : Pipe) (n : ℕ) → (pipe_read p n).1.outgoing ≡ p.outgoing
read_keeps p zero = refl
read_keeps p (suc n) = go p.incoming
  where
    go : (s : Bytes) → (pop_byte s p.outgoing).1.outgoing ≡ p.outgoing
    go [] = refl
    go (b ∷ s) = refl

pub write_le : (p : Pipe) (s : Bytes) → (pipe_write p s).0 ≤ length s
write_le p [] = omega arith
write_le p (b ∷ s) = omega arith

pub write_sends :
    (p : Pipe) (s : Bytes) → (pipe_write p s).1.outgoing ≡ p.outgoing ++ take (pipe_write p s).0 s
write_sends p [] = sym (append-nil _)
write_sends p (b ∷ s) = refl

pub write_keeps : (p : Pipe) (s : Bytes) → (pipe_write p s).1.incoming ≡ p.incoming
write_keeps p [] = refl
write_keeps p (b ∷ s) = refl

abbrev pub pipe : Socket
pipe = record {
  Fd = Pipe;
  read = pipe_read;
  write = pipe_write;
  pending = λ p. p.incoming;
  sent = λ p. p.outgoing;
  read_le = read_le;
  read_takes = read_takes;
  read_keeps = read_keeps;
  write_le = write_le;
  write_sends = write_sends;
  write_keeps = write_keeps;
}

pub pipe-IsLive : IsLive pipe
pipe-IsLive p n ne = go p.incoming ne
  where
    go : (s : Bytes) → s ≢ [] → (pop_byte s p.outgoing).0 ≢ []
    go [] h = absurd (h refl)
    go (b ∷ s) h = λ e. cc

pub pipe-IsOpen : IsOpen pipe
pipe-IsOpen p b s = λ e. cc
