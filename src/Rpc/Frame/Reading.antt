-- ===== src/Rpc/Frame/Reading.antt =====
-- The loop of raw_read: what it consumes, that its fuel is enough, and that a connection that is
-- not broken delivers.
use gogol.Prelude.{
  ℕ, zero, suc, ◌+◌, ◌-◌, ◌≤◌, ◌<◌, ◌≡◌, ◌≢◌, refl, sym, ap, subst, ◌∙◌, Option, none, some, [],
  ◌∷◌, ◌++◌, append_assoc, arith, length, length-append, append_injective,
}
use gogol.Text.{Bytes}
use gogol.Rpc.Socket.{Socket, IsLive}
use gogol.Rpc.Frame.{raw_read_loop, raw_read, put_front}

module _ (os : Socket) where
  open os use {Fd, read, pending, sent, read_le, read_takes, read_keeps}

  -- `s` was read: it stood first among the pending bytes, and nothing was written.
  pub record Consumes (fd fd' : Fd) (s : Bytes) : Type 0 where
    pub took : pending fd ≡ s ++ pending fd'
    pub kept : sent fd' ≡ sent fd

  -- A read that goes well delivers all its bytes. One that fails has consumed fewer.
  abbrev pub Delivers : Fd → ℕ → Option Bytes × Fd → Type 0
  Delivers fd len (some s, fd') = (length s ≡ len) × Consumes fd fd' s
  Delivers fd len (none, fd') = (s : Bytes) × (length s < len) × Consumes fd fd' s

  Consumes-none : (fd : Fd) → Consumes fd fd []
  Consumes-none fd = record { took = refl; kept = refl }

  Consumes-read : (fd : Fd) (n : ℕ) → Consumes fd (read fd n).1 (read fd n).0
  Consumes-read fd n = record { took = read_takes fd n; kept = read_keeps fd n }

  Consumes-append :
      {fd fd' fd'' : Fd} {s t : Bytes}
      → Consumes fd fd' s
      → Consumes fd' fd'' t
      → Consumes fd fd'' (s ++ t)
  Consumes-append {s = s} {t = t} a b = record {
    took = a.took ∙ ap (◌++◌ s) b.took ∙ sym (append_assoc s t _);
    kept = b.kept ∙ a.kept;
  }

  Delivers-put_front :
      {fd fd' : Fd} (len : ℕ) (s : Bytes) (result : Option Bytes × Fd)
      → length s ≤ len
      → Consumes fd fd' s
      → Delivers fd' (len - length s) result
      → Delivers fd len (put_front s result)
  Delivers-put_front len s (some t, fd'') h a (n, b) =
      (omega (arith, length-append s t), Consumes-append a b)
  Delivers-put_front len s (none, fd'') h a (t, n, b) =
      (s ++ t, omega (arith, length-append s t), Consumes-append a b)

  raw_read_loop-round :
      (fuel : ℕ) (fd : Fd) (len : ℕ) (s : Bytes)
      → (read fd (suc len)).0 ≡ s
      → ((fd : Fd) (n : ℕ) → Delivers fd n (raw_read_loop os fuel fd n))
      → Delivers fd (suc len) (raw_read_loop os (suc fuel) fd (suc len))
  unfolding raw_read_loop
  raw_read_loop-round fuel fd len [] e ih =
      rw (e, raw_read_loop)
        ([], omega arith, subst (Consumes fd (read fd (suc len)).1) e (Consumes-read fd (suc len)))
  raw_read_loop-round fuel fd len (b ∷ t) e ih =
      rw (e, raw_read_loop)
        (Delivers-put_front (suc len) (b ∷ t) _
          (subst (λ s. length s ≤ suc len) e (read_le fd (suc len)))
          (subst (Consumes fd (read fd (suc len)).1) e (Consumes-read fd (suc len)))
          (subst
            (λ n.
              Delivers (read fd (suc len)).1 n
                (raw_read_loop os fuel (read fd (suc len)).1 (len - length t)))
            (omega arith) (ih (read fd (suc len)).1 (len - length t))))

  raw_read_loop-Delivers :
      (fuel : ℕ) (fd : Fd) (len : ℕ) → Delivers fd len (raw_read_loop os fuel fd len)
  raw_read_loop-Delivers fuel fd zero = unfold raw_read_loop in (refl, Consumes-none fd)
  raw_read_loop-Delivers zero fd (suc len) =
      unfold raw_read_loop in ([], omega arith, Consumes-none fd)
  raw_read_loop-Delivers (suc fuel) fd (suc len) =
      raw_read_loop-round fuel fd len (read fd (suc len)).0 refl (raw_read_loop-Delivers fuel)

  -- What raw_read returns and leaves, on every connection.
  pub raw_read-Delivers : (fd : Fd) (len : ℕ) → Delivers fd len (raw_read os fd len)
  unfolding raw_read
  raw_read-Delivers fd len = raw_read_loop-Delivers len fd len

  raw_read_loop-same_round :
      (f g : ℕ) (fd : Fd) (len : ℕ) (s : Bytes)
      → (read fd (suc len)).0 ≡ s
      → ((fd : Fd) (n : ℕ) → n ≤ len → raw_read_loop os f fd n ≡ raw_read_loop os g fd n)
      → raw_read_loop os (suc f) fd (suc len) ≡ raw_read_loop os (suc g) fd (suc len)
  unfolding raw_read_loop
  raw_read_loop-same_round f g fd len [] e ih = rw (e, raw_read_loop)
  raw_read_loop-same_round f g fd len (b ∷ t) e ih =
      rw (e, raw_read_loop)
        (ap (put_front (b ∷ t)) (ih (read fd (suc len)).1 (len - length t) (omega arith)))

  -- Fuel for the bytes that are asked for is enough: any more changes nothing.
  raw_read_loop-fuel :
      (f : ℕ) (fd : Fd) (len : ℕ) → len ≤ f → raw_read_loop os f fd len ≡ raw_read os fd len
  unfolding raw_read
  raw_read_loop-fuel f fd len h = same f len fd len h (omega arith)
    where
      same :
          (f g : ℕ) (fd : Fd) (len : ℕ)
          → len ≤ f
          → len ≤ g
          → raw_read_loop os f fd len ≡ raw_read_loop os g fd len
      same f g fd zero hf hg = unfold raw_read_loop in refl
      same zero g fd (suc len) hf hg = absurd (omega arith)
      same (suc f) zero fd (suc len) hf hg = absurd (omega arith)
      same (suc f) (suc g) fd (suc len) hf hg =
          raw_read_loop-same_round f g fd len (read fd (suc len)).0 refl
            (λ fd' n le. same f g fd' n (omega arith) (omega arith))

  abbrev IsDone : Option Bytes × Fd → Type 0
  IsDone result = (s : Bytes) × (result.0 ≡ some s)

  IsDone-put_front :
      (s : Bytes) (result : Option Bytes × Fd) → IsDone result → IsDone (put_front s result)
  IsDone-put_front s (some t, fd) h = (s ++ t, refl)
  IsDone-put_front s (none, fd) h = cc

  raw_read_loop-live_round :
      (fuel : ℕ) (fd : Fd) (len : ℕ) (s : Bytes)
      → (read fd (suc len)).0 ≡ s
      → s ≢ []
      → ((fd' : Fd) (n : ℕ)
          → n ≤ len
          → n + length s ≡ suc len
          → pending fd ≡ s ++ pending fd'
          → IsDone (raw_read_loop os fuel fd' n))
      → IsDone (raw_read_loop os (suc fuel) fd (suc len))
  unfolding raw_read_loop
  raw_read_loop-live_round fuel fd len [] e ne ih = absurd (ne refl)
  raw_read_loop-live_round fuel fd len (b ∷ t) e ne ih =
      let fits : length (b ∷ t) ≤ suc len =
        subst (λ s. length s ≤ suc len) e (read_le fd (suc len)) in
      let took = subst (Consumes fd (read fd (suc len)).1) e (Consumes-read fd (suc len)) in
      rw (e, raw_read_loop)
        (IsDone-put_front (b ∷ t) _
          (ih (read fd (suc len)).1 (len - length t) (omega arith) (omega arith) took.took))

  raw_read_loop-live :
      IsLive os
      → (fuel : ℕ) (fd : Fd) (len : ℕ) → len ≤ fuel
      → len ≤ length (pending fd)
      → IsDone (raw_read_loop os fuel fd len)
  raw_read_loop-live live fuel fd zero hf hp = unfold raw_read_loop in ([], refl)
  raw_read_loop-live live zero fd (suc len) hf hp = absurd (omega arith)
  raw_read_loop-live live (suc fuel) fd (suc len) hf hp =
      raw_read_loop-live_round fuel fd len (read fd (suc len)).0 refl
        (live fd len (λ e. absurd (omega (arith, ap length e))))
        (λ fd' n le sum took.
          raw_read_loop-live live fuel fd' n (omega arith)
            (omega (arith, ap length took, length-append (read fd (suc len)).0 (pending fd'))))

  Delivers-whole :
      {fd : Fd} (s rest : Bytes) (result : Option Bytes × Fd)
      → pending fd ≡ s ++ rest
      → Delivers fd (length s) result
      → IsDone result
      → (result.0 ≡ some s) × (pending result.1 ≡ rest) × (sent result.1 ≡ sent fd)
  Delivers-whole s rest (none, fd') e d done = cc
  Delivers-whole s rest (some t, fd') e (n, c) done =
      let (same, left) = append_injective t s (pending fd') rest n (sym c.took ∙ e) in
      (ap some same, left, c.kept)

  -- A connection that is not broken delivers the bytes that are asked for, if they were sent.
  pub raw_read-live :
      IsLive os
      → (fd : Fd) (s rest : Bytes) → pending fd ≡ s ++ rest
      → let (result, fd') = raw_read os fd (length s) in
        (result ≡ some s) × (pending fd' ≡ rest) × (sent fd' ≡ sent fd)
  unfolding raw_read
  raw_read-live live fd s rest e = Delivers-whole s rest _ e (raw_read-Delivers fd (length s)) (
      raw_read_loop-live live (length s) fd (length s) (omega arith)
        (omega (arith, ap length e, length-append s rest)))
