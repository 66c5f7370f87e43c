-- ===== src/Rpc/Crypto.antt =====
-- The encryption layer of src/daemon/rpc_v2.cpp: CryptoState, crypto_init, increment_nonce and the
-- encrypted frames. The authenticated cipher of the vendored monocypher is a parameter.
pub mod Nonce
pub mod Session
mod Tests
use gogol.Prelude.{
  ℕ, ◌+◌, ◌%◌, ◌≡◌, Bool, true, false, Option, none, some, List, [], ◌∷◌, ◌++◌, ltb, ◌==◌,
  if◌then◌else◌, length, take, drop, replicate,
}
use gogol.Text.{Bytes}
use gogol.Rpc.Socket.{Socket}
use gogol.Rpc.Frame.{frame_write, frame_read}

-- crypto_aead_lock and crypto_aead_unlock, with no additional data: the mac and the cipher text of
-- a plain text, and back. What monocypher documents: the mac has 16 bytes, the cipher text is as
-- long as the plain text, and unlocking with the same key and nonce gives the plain text.
pub record Aead : Type 0 where
  pub lock : Bytes → Bytes → Bytes → Bytes × Bytes
  pub unlock : Bytes → Bytes → Bytes → Bytes → Option Bytes
  pub mac_length : (key nonce plain : Bytes) → length (lock key nonce plain).0 ≡ 16
  pub text_length : (key nonce plain : Bytes) → length (lock key nonce plain).1 ≡ length plain
  pub unlock_lock :
      (key nonce plain : Bytes)
      → unlock key nonce (lock key nonce plain).0 (lock key nonce plain).1 ≡ some plain

pub record CryptoState : Type 0 where
  pub key : Bytes
  pub send_nonce : Bytes
  pub recv_nonce : Bytes
  pub active : Bool

-- CryptoState{}: zeroes, not active.
abbrev pub no_crypto : CryptoState
no_crypto = record {
  key = replicate 32 0;
  send_nonce = replicate 24 0;
  recv_nonce = replicate 24 0;
  active = false;
}

-- The loop over the bytes of the nonce: it stops at the first that does not wrap around.
unfoldable pub increment_nonce : Bytes → Bytes
increment_nonce [] = []
increment_nonce (b ∷ s) =
    let rest = increment_nonce s in if (b + 1) % 256 == 0 then 0 ∷ rest else (b + 1) % 256 ∷ s

-- Both branches on `is_client` set the nonces alike.
unfoldable pub crypto_init : Bytes → Bytes → Bytes → Bool → CryptoState
crypto_init shared_key local_nonce remote_nonce is_client = record {
  key = take 32 shared_key;
  send_nonce = if is_client then take 24 local_nonce else take 24 local_nonce;
  recv_nonce = if is_client then take 24 remote_nonce else take 24 remote_nonce;
  active = true;
}

-- The state moves on only if the frame unlocks.
unlocked : CryptoState → Option Bytes → Bytes × CryptoState
unlocked state none = ([], state)
unlocked state (some plain) =
    (plain, record state { recv_nonce = increment_nonce state.recv_nonce })

-- What becomes of a frame that was read: too short, or unlocked with its first 16 bytes for the mac.
open_frame : Aead → CryptoState → Bytes → Bytes × CryptoState
open_frame aead state frame =
    if ltb (length frame) 16
    then ([], state)
    else unlocked state (aead.unlock state.key state.recv_nonce (take 16 frame) (drop 16 frame))

module _ (aead : Aead) (os : Socket) where
  open os use {Fd}

  -- The mac and the cipher text, as one frame; the nonce moves on whether the write succeeds or not.
  pub crypto_frame_write : Fd → CryptoState → Bytes → Bool × CryptoState × Fd
  crypto_frame_write fd state plain =
      let (mac, text) = aead.lock state.key state.send_nonce plain in
      let (done, fd') = frame_write os fd (mac ++ text) in
      (done, record state { send_nonce = increment_nonce state.send_nonce }, fd')

  pub crypto_frame_read : Fd → CryptoState → Bytes × CryptoState × Fd
  crypto_frame_read fd state =
      let (frame, fd') = frame_read os fd in
      let (plain, state') = open_frame aead state frame in (plain, state', fd')
