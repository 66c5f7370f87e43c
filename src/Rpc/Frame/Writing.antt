-- ===== src/Rpc/Frame/Writing.antt =====
-- The loop of raw_write: what it sends, that its fuel is enough, and that a connection that is not
-- broken takes everything.
use gogol.Prelude.{
  ℕ, zero, suc, ◌+◌, ◌≤◌, ◌<◌, ◌≡◌, ◌≢◌, refl, sym, ap, subst, ◌∙◌, Bool, true, false, [], ◌∷◌,
  ◌++◌, append_assoc, append-nil, arith, length, length-drop, take, drop, take-append-drop,
  take-add,
}
use gogol.Text.{Bytes}
use gogol.Rpc.Socket.{Socket}
use gogol.Rpc.Frame.{raw_write_loop, raw_write}

-- Every write of a byte or more takes one at least.
abbrev pub IsOpen : Socket → Type 0
IsOpen os = (fd : os.Fd) (b : ℕ) (s : Bytes) → (os.write fd (b ∷ s)).0 ≢ 0

module _ (os : Socket) where
  open os use {Fd, write, pending, sent, write_le, write_sends, write_keeps}

  -- A write that goes well has sent all its bytes. One that fails has sent some of the first ones.
  abbrev pub Sends : Fd → Bytes → Bool × Fd → Type 0
  Sends fd s (true, fd') = (sent fd' ≡ sent fd ++ s) × (pending fd' ≡ pending fd)
  Sends fd s (false, fd') =
      (n : ℕ) × (n < length s) × (sent fd' ≡ sent fd ++ take n s) × (pending fd' ≡ pending fd)

  Sends-after :
      {fd fd' : Fd} (s : Bytes) (k : ℕ) (result : Bool × Fd)
      → k ≤ length s
      → sent fd' ≡ sent fd ++ take k s
      → pending fd' ≡ pending fd
      → Sends fd' (drop k s) result
      → Sends fd s result
  Sends-after s k (true, r) h now keeps (later, kept) = (
    later
        ∙ ap (λ x. x ++ drop k s) now
        ∙ append_assoc _ (take k s) (drop k s)
        ∙ ap (◌++◌ _) (take-append-drop k s),
    kept ∙ keeps,
  )
  Sends-after s k (false, r) h now keeps (n, lt, later, kept) = (
    k + n,
    omega (arith, length-drop k s),
    later
        ∙ ap (λ x. x ++ take n (drop k s)) now
        ∙ append_assoc _ (take k s) (take n (drop k s))
        ∙ ap (◌++◌ _) (take-add k n s),
    kept ∙ keeps,
  )

  raw_write_loop-round :
      (fuel : ℕ) (fd : Fd) (b : ℕ) (s : Bytes) (n : ℕ)
      → (write fd (b ∷ s)).0 ≡ n
      → ((fd : Fd) (t : Bytes) → Sends fd t (raw_write_loop os fuel fd t))
      → Sends fd (b ∷ s) (raw_write_loop os (suc fuel) fd (b ∷ s))
  unfolding raw_write_loop
  raw_write_loop-round fuel fd b s zero e ih =
      rw (e, raw_write_loop)
        (
          0,
          omega arith,
          write_sends fd (b ∷ s) ∙ ap (λ k. sent fd ++ take k (b ∷ s)) e,
          write_keeps fd (b ∷ s),
        )
  raw_write_loop-round fuel fd b s (suc m) e ih =
      rw (e, raw_write_loop)
        (Sends-after (b ∷ s) (suc m) _ (subst (λ k. k ≤ suc (length s)) e (write_le fd (b ∷ s)))
          (write_sends fd (b ∷ s) ∙ ap (λ k. sent fd ++ take k (b ∷ s)) e) (write_keeps fd (b ∷ s))
          (ih (write fd (b ∷ s)).1 (drop m s)))

  raw_write_loop-Sends : (fuel : ℕ) (fd : Fd) (s : Bytes) → Sends fd s (raw_write_loop os fuel fd s)
  raw_write_loop-Sends fuel fd [] = unfold raw_write_loop in (sym (append-nil _), refl)
  raw_write_loop-Sends zero fd (b ∷ s) =
      unfold raw_write_loop in (0, omega arith, sym (append-nil _), refl)
  raw_write_loop-Sends (suc fuel) fd (b ∷ s) =
      raw_write_loop-round fuel fd b s (write fd (b ∷ s)).0 refl (raw_write_loop-Sends fuel)

  -- What raw_write returns and sends, on every connection.
  pub raw_write-Sends : (fd : Fd) (s : Bytes) → Sends fd s (raw_write os fd s)
  unfolding raw_write
  raw_write-Sends fd s = raw_write_loop-Sends (length s) fd s

  raw_write_loop-open_round :
      (fuel : ℕ) (fd : Fd) (b : ℕ) (s : Bytes) (n : ℕ)
      → (write fd (b ∷ s)).0 ≡ n
      → n ≢ 0
      → ((fd : Fd) (t : Bytes) → length t ≤ length s → (raw_write_loop os fuel fd t).0 ≡ true)
      → (raw_write_loop os (suc fuel) fd (b ∷ s)).0 ≡ true
  unfolding raw_write_loop
  raw_write_loop-open_round fuel fd b s zero e ne ih = absurd (ne refl)
  raw_write_loop-open_round fuel fd b s (suc m) e ne ih =
      rw (e, raw_write_loop) (ih (write fd (b ∷ s)).1 (drop m s) (omega (arith, length-drop m s)))

  raw_write_loop-open :
      IsOpen os
      → (fuel : ℕ) (fd : Fd) (s : Bytes) → length s ≤ fuel
      → (raw_write_loop os fuel fd s).0 ≡ true
  raw_write_loop-open open_ fuel fd [] h = unfold raw_write_loop in refl
  raw_write_loop-open open_ zero fd (b ∷ s) h = absurd (omega arith)
  raw_write_loop-open open_ (suc fuel) fd (b ∷ s) h =
      raw_write_loop-open_round fuel fd b s (write fd (b ∷ s)).0 refl (open_ fd b s)
        (λ fd' t le. raw_write_loop-open open_ fuel fd' t (omega arith))

  -- A connection that is not broken takes every byte: the fuel never runs out.
  pub raw_write-open : IsOpen os → (fd : Fd) (s : Bytes) → (raw_write os fd s).0 ≡ true
  unfolding raw_write
  raw_write-open open_ fd s = raw_write_loop-open open_ (length s) fd s (omega arith)

  Sends-whole :
      {fd : Fd} (s : Bytes) (result : Bool × Fd)
      → result.0 ≡ true
      → Sends fd s result
      → (result.0 ≡ true) × (sent result.1 ≡ sent fd ++ s) × (pending result.1 ≡ pending fd)
  Sends-whole s (true, fd') done (sends, keeps) = (refl, sends, keeps)
  Sends-whole s (false, fd') done d = cc

  pub raw_write-whole :
      IsOpen os
      → (fd : Fd) (s : Bytes)
      → let (done, fd') = raw_write os fd s in
        (done ≡ true) × (sent fd' ≡ sent fd ++ s) × (pending fd' ≡ pending fd)
  raw_write-whole open_ fd s = Sends-whole s _ (raw_write-open open_ fd s) (raw_write-Sends fd s)
