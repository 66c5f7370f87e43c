-- ===== src/Rpc/Crypto/Session.antt =====
-- An encrypted session: what one end writes, the other reads and unlocks, and the nonces stay in
-- step.
use gogol.Prelude.{
  ℕ, zero, suc, ◌+◌, ◌≤◌, ◌≡◌, refl, sym, ap, ap₂, subst, ◌∙◌, true, List, [], ◌∷◌, ◌++◌,
  append_assoc, append_injective, append-nil, arith, le→ltb, length, length-append, take, drop,
  take-length_append, drop-length_append, All,
}
use gogol.Text.{Bytes}
use gogol.Rpc.Socket.{Socket, IsLive}
use gogol.Rpc.Frame.{frame_limit}
use gogol.Rpc.Frame.Writing.{IsOpen}
use gogol.Rpc.Frame.Delivery.{frame, frame_write-open, frame_read-accepts}
use gogol.Rpc.Crypto.{
  Aead, CryptoState, increment_nonce, crypto_frame_write, crypto_frame_read, open_frame, unlocked,
}

-- The reader has the writer's key and waits for the nonce that the writer uses next.
pub record InStep (writer reader : CryptoState) : Type 0 where
  pub same_key : reader.key ≡ writer.key
  pub same_nonce : reader.recv_nonce ≡ writer.send_nonce

abbrev pub next_send : CryptoState → CryptoState
next_send s = record s { send_nonce = increment_nonce s.send_nonce }

abbrev pub next_recv : CryptoState → CryptoState
next_recv s = record s { recv_nonce = increment_nonce s.recv_nonce }

InStep-next : {w r : CryptoState} → InStep w r → InStep (next_send w) (next_recv r)
InStep-next h = record { same_key = h.same_key; same_nonce = ap increment_nonce h.same_nonce }

module _ (aead : Aead) where
  -- The frame that a plain text goes out as.
  pub sealed : CryptoState → Bytes → Bytes
  sealed w plain = let (mac, text) = aead.lock w.key w.send_nonce plain in mac ++ text

  length-sealed : (w : CryptoState) (plain : Bytes) → length (sealed w plain) ≡ length plain + 16
  unfolding sealed
  length-sealed w plain =
      let (mac, text) = aead.lock w.key w.send_nonce plain in
      omega (
        arith,
        length-append mac text,
        aead.mac_length w.key w.send_nonce plain,
        aead.text_length w.key w.send_nonce plain,
      )

  take-sealed :
      (w : CryptoState) (plain : Bytes)
      → take 16 (sealed w plain) ≡ (aead.lock w.key w.send_nonce plain).0
  unfolding sealed
  take-sealed w plain =
      let (mac, text) = aead.lock w.key w.send_nonce plain in
      ap (λ n. take n (mac ++ text)) (sym (aead.mac_length w.key w.send_nonce plain))
      ∙ take-length_append mac text

  drop-sealed :
      (w : CryptoState) (plain : Bytes)
      → drop 16 (sealed w plain) ≡ (aead.lock w.key w.send_nonce plain).1
  unfolding sealed
  drop-sealed w plain =
      let (mac, text) = aead.lock w.key w.send_nonce plain in
      ap (λ n. drop n (mac ++ text)) (sym (aead.mac_length w.key w.send_nonce plain))
      ∙ drop-length_append mac text

  -- A reader in step opens the frame, and stays in step.
  open_frame-sealed :
      (w r : CryptoState) (plain : Bytes)
      → InStep w r
      → open_frame aead r (sealed w plain) ≡ (plain, next_recv r)
  unfolding open_frame unlocked
  open_frame-sealed w r plain h = rw (
    le→ltb (length (sealed w plain)) 16 (omega (arith, length-sealed w plain)),
    take-sealed w plain,
    drop-sealed w plain,
    h.same_key,
    h.same_nonce,
    aead.unlock_lock w.key w.send_nonce plain,
  )

module _ (aead : Aead) (os : Socket) where
  open os use {Fd, pending, sent}

  crypto_frame_write-open :
      IsOpen os
      → (fd : Fd) (w : CryptoState) (plain : Bytes)
      → let (done, w', fd') = crypto_frame_write aead os fd w plain in
        (done ≡ true) × (w' ≡ next_send w) × (sent fd' ≡ sent fd ++ frame (sealed aead w plain))
  unfolding crypto_frame_write sealed
  crypto_frame_write-open opn fd w plain =
      let (done, sends, _) = frame_write-open os opn fd (sealed aead w plain) in (done, refl, sends)

  -- A frame that was sealed by a writer in step is opened, and the ends stay in step.
  pub crypto_frame_read-sealed :
      IsLive os
      → (fd : Fd) (w r : CryptoState) (plain rest : Bytes) → InStep w r
      → length plain + 16 ≤ frame_limit
      → pending fd ≡ frame (sealed aead w plain) ++ rest
      → let (text, r', fd') = crypto_frame_read aead os fd r in
        (text ≡ plain) × (r' ≡ next_recv r) × (pending fd' ≡ rest)
  unfolding crypto_frame_read
  crypto_frame_read-sealed live fd w r plain rest h small e =
      let (got, left, _) =
        frame_read-accepts os live fd (sealed aead w plain) rest
          (omega (arith, length-sealed aead w plain)) (omega (arith, length-sealed aead w plain))
          e in
      let opened = ap (open_frame aead r) got ∙ open_frame-sealed aead w r plain h in
      (
        ap (λ (x : Bytes × CryptoState). x.0) opened,
        ap (λ (x : Bytes × CryptoState). x.1) opened,
        left,
      )

  -- One end sends its texts in order; the other receives as many.
  unfoldable pub send_texts : Fd → CryptoState → List Bytes → Fd × CryptoState
  send_texts fd w [] = (fd, w)
  send_texts fd w (plain ∷ texts) =
      let (done, w', fd') = crypto_frame_write aead os fd w plain in send_texts fd' w' texts

  pub receive_texts : Fd → CryptoState → ℕ → List Bytes × CryptoState × Fd
  receive_texts fd r zero = ([], r, fd)
  receive_texts fd r (suc n) =
      let (plain, r', fd') = crypto_frame_read aead os fd r in
      let (texts, r'', fd'') = receive_texts fd' r' n in (plain ∷ texts, r'', fd'')

  sealed_frames : CryptoState → List Bytes → Bytes
  sealed_frames w [] = []
  sealed_frames w (plain ∷ texts) = frame (sealed aead w plain) ++ sealed_frames (next_send w) texts

  send_texts-sealed_frames :
      IsOpen os
      → (fd : Fd) (w : CryptoState) (texts : List Bytes)
      → sent (send_texts fd w texts).0 ≡ sent fd ++ sealed_frames w texts
  unfolding send_texts sealed_frames
  send_texts-sealed_frames opn fd w [] = sym (append-nil _)
  send_texts-sealed_frames opn fd w (plain ∷ texts) =
      let (done, next, sends) = crypto_frame_write-open opn fd w plain in
      let (d, w', fd') = crypto_frame_write aead os fd w plain in
      send_texts-sealed_frames opn fd' w' texts
      ∙ ap₂ (λ x v. x ++ sealed_frames v texts) sends next
      ∙ append_assoc (sent fd) (frame (sealed aead w plain)) (sealed_frames (next_send w) texts)

  abbrev pub Fits : Bytes → Type 0
  Fits plain = length plain + 16 ≤ frame_limit

  -- The writer behind its texts.
  abbrev next_sends : CryptoState → List Bytes → CryptoState
  next_sends w [] = w
  next_sends w (plain ∷ texts) = next_sends (next_send w) texts

  send_texts-next_sends :
      IsOpen os
      → (fd : Fd) (w : CryptoState) (texts : List Bytes)
      → (send_texts fd w texts).1 ≡ next_sends w texts
  unfolding send_texts
  send_texts-next_sends opn fd w [] = refl
  send_texts-next_sends opn fd w (plain ∷ texts) =
      let (done, next, sends) = crypto_frame_write-open opn fd w plain in
      let (d, w', fd') = crypto_frame_write aead os fd w plain in
      send_texts-next_sends opn fd' w' texts ∙ ap (λ v. next_sends v texts) next

  receive_texts-sealed_frames :
      IsLive os
      → (fd : Fd) (w r : CryptoState) (texts : List Bytes) (rest : Bytes) → InStep w r
      → All Fits texts
      → pending fd ≡ sealed_frames w texts ++ rest
      → let (got, r', fd') = receive_texts fd r (length texts) in
        (got ≡ texts) × InStep (next_sends w texts) r' × (pending fd' ≡ rest)
  unfolding receive_texts sealed_frames
  receive_texts-sealed_frames live fd w r [] rest h ok e = (refl, h, e)
  receive_texts-sealed_frames live fd w r (plain ∷ texts) rest h ok e =
      let (got, next, left) =
        crypto_frame_read-sealed live fd w r plain _ h ok.0 (
          e
          ∙ append_assoc (frame (sealed aead w plain)) (sealed_frames (next_send w) texts) rest) in
      let (text, r', fd') = crypto_frame_read aead os fd r in
      let (later, step, end) =
        receive_texts-sealed_frames live fd' (next_send w) r' texts rest
          (subst (InStep (next_send w)) (sym next) (InStep-next h)) ok.1 left in
      (ap₂ ◌∷◌ got later, step, end)

  -- Texts of at most 64 MB less the 16 bytes of the code that one end of an encrypted session sends
  -- over an open connection arrive whole and in order at the other, if its connection is live and the
  -- two start in step; they then end in step, with nothing else read.
  pub receive_texts-send_texts :
      IsOpen os
      → IsLive os
      → (a b : Fd) (w r : CryptoState) (texts : List Bytes) (arrived rest : Bytes) → InStep w r
      → All Fits texts
      → sent (send_texts a w texts).0 ≡ sent a ++ arrived
      → pending b ≡ arrived ++ rest
      → let (got, r', fd') = receive_texts b r (length texts) in
        (got ≡ texts) × InStep (send_texts a w texts).1 r' × (pending fd' ≡ rest)
  receive_texts-send_texts opn live a b w r texts arrived rest h ok sends arrives =
      let (_, same) =
        append_injective (sent a) (sent a) arrived (sealed_frames w texts) refl
          (sym sends ∙ send_texts-sealed_frames opn a w texts) in
      let (got, step, end) =
        receive_texts-sealed_frames live b w r texts rest h ok
          (arrives ∙ ap (λ x. x ++ rest) same) in
      (got, rw (send_texts-next_sends opn a w texts) step, end)
