-- ===== src/Rpc/Handshake/Messages.antt =====
-- The messages of the handshake: the bytes that each side sends, and what each does when it is sent
-- those of the other.
use gogol.Prelude.{
  ℕ, suc, ◌%◌, ◌<◌, ◌≡◌, refl, sym, ap, ap₂, ◌∙◌, false, Option, List, [], ◌∷◌, ◌++◌, append_assoc,
  append-nil, arith, ◌==◌, length, take-all,
}
use gogol.Text.{Bytes}
use gogol.Rpc.Socket.{Socket, IsLive}
use gogol.Rpc.Frame.{raw_read, raw_write}
use gogol.Rpc.Frame.Reading.{raw_read-live}
use gogol.Rpc.Frame.Writing.{IsOpen, raw_write-whole}
use gogol.Rpc.Handshake.{
  HandshakeResult, Keys, verdict, flags_of, nonce_of, or_failed, write_pieces, client_hello,
  client_pieces, server_pieces, client_result, client_finish, respond, answer, server_handshake,
}

-- The bytes that the client sends first, and those that it is answered.
abbrev pub hello : Bytes → Option Bytes → Bytes → Bytes
hello name key nonce = 1 ∷ flags_of key ∷ length name ∷ (name ++ nonce)

abbrev pub reply : ℕ → Bytes → Bytes
reply status nonce = 1 ∷ status ∷ nonce

concat : List Bytes → Bytes
concat [] = []
concat (s ∷ pieces) = s ++ concat pieces

concat-client_pieces :
    (name : Bytes) (key : Option Bytes) (fresh : Bytes)
    → length name < 256
    → concat (client_pieces name key fresh) ≡ hello name key (nonce_of key fresh)
unfolding concat client_pieces
concat-client_pieces [] key fresh h = ap (λ x. 1 ∷ flags_of key ∷ 0 ∷ x) (append-nil _)
concat-client_pieces (c ∷ name) key fresh h =
    let len : suc (length name) % 256 ≡ suc (length name) = omega arith in
    let some_name : (suc (length name) == 0) ≡ false = ground arith in
    rw (len, some_name)
      (ap (λ x. 1 ∷ flags_of key ∷ suc (length name) ∷ c ∷ x)
        (ap₂ ◌++◌ (take-all (length name) name (omega arith)) (append-nil _)))

module _ (os : Socket) where
  open os use {Fd, pending, sent}

  write_pieces-concat :
      IsOpen os
      → (fd : Fd) (pieces : List Bytes)
      → sent (write_pieces os fd pieces) ≡ sent fd ++ concat pieces
  unfolding write_pieces concat
  write_pieces-concat opn fd [] = sym (append-nil _)
  write_pieces-concat opn fd (s ∷ pieces) =
      write_pieces-concat opn (raw_write os fd s).1 pieces
      ∙ ap (λ x. x ++ concat pieces) (raw_write-whole os opn fd s).1
      ∙ append_assoc (sent fd) s (concat pieces)

  pub client_hello-hello :
      IsOpen os
      → (fd : Fd) (name : Bytes) (key : Option Bytes) (fresh : Bytes) → length name < 256
      → sent (client_hello os fd name key fresh) ≡ sent fd ++ hello name key (nonce_of key fresh)
  unfolding client_hello
  client_hello-hello opn fd name key fresh h =
      write_pieces-concat opn fd (client_pieces name key fresh)
      ∙ ap (◌++◌ (sent fd)) (concat-client_pieces name key fresh h)

  pub respond-reply :
      IsOpen os
      → (fd : Fd) (status : ℕ) (nonce : Bytes)
      → sent (respond os fd status nonce) ≡ sent fd ++ reply status nonce
  unfolding respond concat
  respond-reply opn fd status nonce =
      write_pieces-concat opn fd (server_pieces status nonce)
      ∙ ap (λ x. sent fd ++ (1 ∷ status ∷ x)) (append-nil nonce)

  -- A read of what is there goes on with it.
  or_failed-live :
      IsLive os
      → (fd : Fd) (n : ℕ) (s rest : Bytes) → length s ≡ n
      → pending fd ≡ s ++ rest
      → (fd' : Fd) × ((next : Bytes → Fd → HandshakeResult × Fd)
          → or_failed (raw_read os fd n) next ≡ next s fd')
        × (pending fd' ≡ rest)
        × (sent fd' ≡ sent fd)
  unfolding or_failed
  or_failed-live live fd n s rest len e =
      let (got, left, kept) = raw_read-live os live fd s rest e in
      (
        (raw_read os fd (length s)).1,
        λ next.
            ap (λ k. or_failed (raw_read os fd k) next) (sym len)
            ∙ ap (λ o. or_failed (o, (raw_read os fd (length s)).1) next) got,
        left,
        kept,
      )

  pub client_finish-reply :
      IsLive os
      → (fd : Fd) (name : Bytes) (key : Option Bytes) (fresh : Bytes) (status : ℕ)
        (nonce rest : Bytes)
      → length nonce ≡ 24
      → pending fd ≡ reply status nonce ++ rest
      → (client_finish os fd name key fresh).0
        ≡ client_result name key (nonce_of key fresh) status nonce
  unfolding client_finish
  client_finish-reply live fd name key fresh status nonce rest n e =
      let (fd1, step1, left1, _) =
        or_failed-live live fd 1 (1 ∷ []) (status ∷ (nonce ++ rest)) refl e in
      let (fd2, step2, left2, _) =
        or_failed-live live fd1 1 (status ∷ []) (nonce ++ rest) refl left1 in
      let (fd3, step3, left3, _) = or_failed-live live fd2 24 nonce rest n left2 in
      ap (λ (x : HandshakeResult × Fd). x.0) (step1 _ ∙ step2 _ ∙ step3 _)

  pub server_handshake-hello :
      IsLive os
      → (fd : Fd) (keys : Keys) (name : Bytes) (key : Option Bytes) (fresh nonce rest : Bytes)
      → length nonce ≡ 24
      → pending fd ≡ hello name key nonce ++ rest
      → (fd' : Fd) × (server_handshake os fd keys fresh
          ≡ answer os fd' name nonce fresh (verdict keys (flags_of key) name))
        × (sent fd' ≡ sent fd)
        × (pending fd' ≡ rest)
  unfolding server_handshake
  server_handshake-hello live fd keys name key fresh nonce rest n e =
      let (fd1, step1, left1, kept1) =
        or_failed-live live fd 1 (1 ∷ []) (flags_of key ∷ length name ∷ (name ++ nonce ++ rest))
          refl e in
      let (fd2, step2, left2, kept2) =
        or_failed-live live fd1 1 (flags_of key ∷ []) (length name ∷ (name ++ nonce ++ rest)) refl
          left1 in
      let (fd3, step3, left3, kept3) =
        or_failed-live live fd2 1 (length name ∷ []) (name ++ (nonce ++ rest)) refl
          (left2 ∙ ap (◌∷◌ (length name)) (append_assoc name nonce rest)) in
      let (fd4, step4, left4, kept4) =
        or_failed-live live fd3 (length name) name (nonce ++ rest) refl left3 in
      let (fd5, step5, left5, kept5) = or_failed-live live fd4 24 nonce rest n left4 in
      (
        fd5,
        step1 _ ∙ step2 _ ∙ step3 _ ∙ step4 _ ∙ step5 _,
        kept5 ∙ kept4 ∙ kept3 ∙ kept2 ∙ kept1,
        left5,
      )
