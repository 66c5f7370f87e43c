-- ===== src/Rpc/Crypto/Tests.antt =====
-- The encrypted frames with a cipher that hides nothing, over a connection of one byte at a time.
use gogol.Prelude.{◌≡◌, ◌≢◌, refl, true, false, some, List, [], ◌∷◌, ◌++◌, arith, replicate}
use gogol.Text.{Bytes, codes}
use gogol.Rpc.Buffer.{le32}
use gogol.Rpc.Frame.{frame_write, raw_write}
use gogol.Rpc.Pipe.{pipe, pipe-IsLive, pipe-IsOpen}
use gogol.Rpc.Crypto.{Aead, CryptoState, increment_nonce, crypto_init, crypto_frame_write}
use gogol.Rpc.Crypto.Nonce.{nonce_after, nonce_after-ne}
use gogol.Rpc.Crypto.Session.{InStep, send_texts, receive_texts, receive_texts-send_texts}

abbrev clear : Aead
clear = record {
  lock = λ key nonce plain. (replicate 16 0, plain);
  unlock = λ key nonce mac text. some text;
  mac_length = λ key nonce plain. refl;
  text_length = λ key nonce plain. refl;
  unlock_lock = λ key nonce plain. refl;
}

increment_nonce_tests :
    (increment_nonce (255 ∷ 255 ∷ 7 ∷ []) ≡ 0 ∷ 0 ∷ 8 ∷ [])
    × (increment_nonce (255 ∷ 255 ∷ []) ≡ 0 ∷ 0 ∷ [])
unfolding increment_nonce
increment_nonce_tests = (refl, refl)

nonce_after-ne_example : nonce_after 0 (replicate 24 0) ≢ nonce_after 300 (replicate 24 0)
nonce_after-ne_example =
    nonce_after-ne 0 300 (replicate 24 0) (omega arith) (omega arith) (omega arith)

abbrev near : CryptoState
near = crypto_init (replicate 32 7) (replicate 24 1) (replicate 24 2) true

abbrev far : CryptoState
far = crypto_init (replicate 32 7) (replicate 24 2) (replicate 24 1) false

abbrev texts : List Bytes
texts = codes "a" ∷ [] ∷ []

abbrev arrived : Bytes
arrived = (17 ∷ 0 ∷ 0 ∷ 0 ∷ (replicate 16 0 ++ codes "a")) ++ (16 ∷ 0 ∷ 0 ∷ 0 ∷ replicate 16 0)

receive_texts-send_texts_example :
    let (got, r, fd) =
      receive_texts clear pipe (record { incoming = arrived; outgoing = [] }) far 2 in
    (got ≡ texts)
    × InStep (send_texts clear pipe (record { incoming = []; outgoing = [] }) near texts).1 r
    × (fd.incoming ≡ [])
unfolding send_texts crypto_frame_write frame_write raw_write le32 crypto_init
receive_texts-send_texts_example =
    receive_texts-send_texts clear pipe pipe-IsOpen pipe-IsLive
      (record { incoming = []; outgoing = [] }) (record { incoming = arrived; outgoing = [] }) near
      far texts arrived [] (record { same_key = refl; same_nonce = refl }) (omega arith) refl refl
