-- ===== src/Rpc/Frame/Delivery.antt =====
-- frame_write and frame_read together: what one end writes, the other reads.
use gogol.Prelude.{
  ℕ, zero, suc, ◌%◌, ◌^◌, ◌≤◌, ◌<◌, ◌≡◌, ◌⊎◌, inl, inr, refl, sym, ap, ap₂, ◌∙◌, Bool, true, false,
  Option, none, some, List, [], ◌∷◌, ◌++◌, append_assoc, append-nil, append_injective, arith, ◌==◌,
  if◌then◌else◌, length, All, le→ltb, lt→ltb,
}
use gogol.Text.{Bytes}
use gogol.Rpc.Buffer.{le32, le_value}
use gogol.Rpc.Buffer.Wire.{le_value-le32}
use gogol.Rpc.Socket.{Socket, IsLive}
use gogol.Rpc.Frame.{
  raw_read, raw_write, frame_write, frame_read, frame_payload, frame_limit, or_empty,
}
use gogol.Rpc.Frame.Reading.{raw_read-live}
use gogol.Rpc.Frame.Writing.{IsOpen, raw_write-whole}

-- A frame on the wire.
abbrev pub frame : Bytes → Bytes
frame s = le32 (length s % 2 ^ 32) ++ s

if_same {ℓ} : {A : Type ℓ} (b : Bool) (a : A) → (if b then a else a) ≡ a
if_same true a = refl
if_same false a = refl

module _ (os : Socket) where
  open os use {Fd, pending, sent}

  -- A frame is written whole on a connection that takes bytes.
  pub frame_write-open :
      IsOpen os
      → (fd : Fd) (s : Bytes)
      → let (done, fd') = frame_write os fd s in
        (done ≡ true) × (sent fd' ≡ sent fd ++ frame s) × (pending fd' ≡ pending fd)
  unfolding frame_write
  frame_write-open live fd [] =
      let (done, sends, keeps) = raw_write-whole os live fd (le32 0) in
      rw (done, frame_write) (refl, sends ∙ ap (◌++◌ (sent fd)) (sym (append-nil (le32 0))), keeps)
  frame_write-open live fd (b ∷ s) =
      let header = le32 (suc (length s) % 2 ^ 32) in
      let (done, sends, keeps) = raw_write-whole os live fd header in
      let (all_done, all_sent, all_kept) =
        raw_write-whole os live (raw_write os fd header).1 (b ∷ s) in
      rw (done, frame_write)
        (
          all_done,
          all_sent ∙ ap (λ x. x ++ b ∷ s) sends ∙ append_assoc (sent fd) header (b ∷ s),
          all_kept ∙ keeps,
        )

  header_value : (s : Bytes) → le_value (le32 (length s % 2 ^ 32)) ≡ length s % 2 ^ 32
  header_value s = le_value-le32 (length s % 2 ^ 32) (omega arith)

  -- `s` was read, and `rest` is left.
  abbrev pub Read : Fd → Bytes → Bytes → Bytes × Fd → Type 0
  Read fd s rest (t, fd') = (t ≡ s) × (pending fd' ≡ rest) × (sent fd' ≡ sent fd)

  or_empty-Read :
      {fd : Fd} (s rest : Bytes) (result : Option Bytes × Fd)
      → (result.0 ≡ some s) × (pending result.1 ≡ rest) × (sent result.1 ≡ sent fd)
      → Read fd s rest (or_empty result)
  or_empty-Read s rest (some t, fd') (same, left, kept) = (ground arith, left, kept)
  or_empty-Read s rest (none, fd') (same, left, kept) = cc

  -- A payload of accepted size is read whole.
  frame_payload-accepts :
      IsLive os
      → (fd : Fd) (s rest : Bytes) → 0 < length s
      → length s ≤ frame_limit
      → pending fd ≡ s ++ rest
      → Read fd s rest (frame_payload os (some (le32 (length s % 2 ^ 32)), fd))
  unfolding frame_payload
  frame_payload-accepts live fd s rest pos small e =
      let len : length s % 2 ^ 32 ≡ length s = omega arith in
      rw (header_value s, len, test s pos, le→ltb frame_limit (length s) small)
        (or_empty-Read s rest _ (raw_read-live os live fd s rest e))
    where
      test : (s : Bytes) → 0 < length s → (length s == 0) ≡ false
      test s h = ground arith

  -- An empty payload, or one over the limit, is not read.
  frame_payload-refuses :
      (fd : Fd) (s : Bytes)
      → (length s ≡ 0) ⊎ (frame_limit < length s)
      → length s < 2 ^ 32
      → frame_payload os (some (le32 (length s % 2 ^ 32)), fd) ≡ ([], fd)
  unfolding frame_payload
  frame_payload-refuses fd s (inl e) small = rw (header_value s, e)
  frame_payload-refuses fd s (inr big) small =
      let len : length s % 2 ^ 32 ≡ length s = omega arith in
      rw (header_value s, len, lt→ltb frame_limit (length s) big) (if_same (length s == 0) ([], fd))

  -- What frame_read makes of a frame that stands in the connection.
  frame_read-header :
      IsLive os
      → (fd : Fd) (s rest : Bytes) → pending fd ≡ frame s ++ rest
      → (fd' : Fd) × (frame_read os fd ≡ frame_payload os (some (le32 (length s % 2 ^ 32)), fd'))
        × (pending fd' ≡ s ++ rest)
        × (sent fd' ≡ sent fd)
  unfolding frame_read le32
  frame_read-header live fd s rest e =
      let header = le32 (length s % 2 ^ 32) in
      let (got, left, kept) =
        raw_read-live os live fd header (s ++ rest) (e ∙ append_assoc header s rest) in
      ((raw_read os fd 4).1, ap (λ o. frame_payload os (o, (raw_read os fd 4).1)) got, left, kept)

  -- A frame of 1 byte to 64 MB is read whole, and what follows it is left for the next call.
  pub frame_read-accepts :
      IsLive os
      → (fd : Fd) (s rest : Bytes) → 0 < length s
      → length s ≤ frame_limit
      → pending fd ≡ frame s ++ rest
      → Read fd s rest (frame_read os fd)
  frame_read-accepts live fd s rest pos small e =
      let (fd', read, left, kept) = frame_read-header live fd s rest e in
      let (same, left', kept') = frame_payload-accepts live fd' s rest pos small left in
      rw read (same, left', kept' ∙ kept)

  -- Of a frame that is empty or over the limit only the header is consumed: the payload stays in
  -- the connection, where the next call takes its bytes for a header.
  pub frame_read-refuses :
      IsLive os
      → (fd : Fd) (s rest : Bytes) → (length s ≡ 0) ⊎ (frame_limit < length s)
      → length s < 2 ^ 32
      → pending fd ≡ frame s ++ rest
      → let (t, fd') = frame_read os fd in
        (t ≡ []) × (pending fd' ≡ s ++ rest) × (sent fd' ≡ sent fd)
  frame_read-refuses live fd s rest bad small e =
      let (fd', read, left, kept) = frame_read-header live fd s rest e in
      rw (read, frame_payload-refuses fd' s bad small) (refl, left, kept)

  -- One end writes its frames in order, the other reads as many.
  unfoldable pub write_frames : Fd → List Bytes → Fd
  write_frames fd [] = fd
  write_frames fd (s ∷ ss) = write_frames (frame_write os fd s).1 ss

  pub read_frames : Fd → ℕ → List Bytes × Fd
  read_frames fd zero = ([], fd)
  read_frames fd (suc n) =
      let (s, fd') = frame_read os fd in let (ss, fd'') = read_frames fd' n in (s ∷ ss, fd'')

  frames : List Bytes → Bytes
  frames [] = []
  frames (s ∷ ss) = frame s ++ frames ss

  abbrev pub IsAccepted : Bytes → Type 0
  IsAccepted s = (0 < length s) × (length s ≤ frame_limit)

  write_frames-frames :
      IsOpen os → (fd : Fd) (ss : List Bytes) → sent (write_frames fd ss) ≡ sent fd ++ frames ss
  unfolding write_frames frames
  write_frames-frames live fd [] = sym (append-nil _)
  write_frames-frames live fd (s ∷ ss) =
      write_frames-frames live (frame_write os fd s).1 ss
      ∙ ap (λ x. x ++ frames ss) (frame_write-open live fd s).1
      ∙ append_assoc (sent fd) (frame s) (frames ss)

  read_frames-frames :
      IsLive os
      → (fd : Fd) (ss : List Bytes) (rest : Bytes) → All IsAccepted ss
      → pending fd ≡ frames ss ++ rest
      → ((read_frames fd (length ss)).0 ≡ ss) × (pending (read_frames fd (length ss)).1 ≡ rest)
  unfolding read_frames frames
  read_frames-frames live fd [] rest ok e = (refl, e)
  read_frames-frames live fd (s ∷ ss) rest ok e =
      let (same, left, _) =
        frame_read-accepts live fd s (frames ss ++ rest) ok.0.0 ok.0.1
          (e ∙ append_assoc (frame s) (frames ss) rest) in
      let (later, end) = read_frames-frames live (frame_read os fd).1 ss rest ok.1 left in
      (ap₂ ◌∷◌ same later, end)

  -- Frames of one byte to 64 MB that one end of an open and live connection writes, the other reads,
  -- frame by frame and in order, and nothing behind them: `w` is the connection of the writer, `r`
  -- that of the reader, to whom the bytes that `w` sends come through.
  pub read_frames-write_frames :
      IsOpen os
      → IsLive os
      → (w r : Fd) (ss : List Bytes) (arrived rest : Bytes) → All IsAccepted ss
      → sent (write_frames w ss) ≡ sent w ++ arrived
      → pending r ≡ arrived ++ rest
      → ((read_frames r (length ss)).0 ≡ ss) × (pending (read_frames r (length ss)).1 ≡ rest)
  read_frames-write_frames opn live w r ss arrived rest ok sends arrives =
      let (_, same) =
        append_injective (sent w) (sent w) arrived (frames ss) refl
          (sym sends ∙ write_frames-frames opn w ss) in
      read_frames-frames live r ss rest ok (arrives ∙ ap (λ x. x ++ rest) same)
