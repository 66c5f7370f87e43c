-- ===== src/Rpc/Handshake.antt =====
-- client_handshake and server_handshake of src/daemon/rpc_v2.cpp. The bytes that random_nonce reads
-- from /dev/urandom are an argument. The results of the writes are ignored, as in the source.
pub mod Messages
pub mod Agreement
mod Tests
use gogol.Prelude.{
  ℕ, zero, suc, ◌%◌, Bool, true, false, ◌&&◌, ◌||◌, not, Option, none, some, List, [], ◌∷◌, ◌==◌,
  if◌then◌else◌, is_nil, length, take, replicate,
}
use gogol.Text.{Bytes, str_eq}
use gogol.Rpc.Socket.{Socket}
use gogol.Rpc.Frame.{raw_read, raw_write}
use gogol.Rpc.Crypto.{CryptoState, no_crypto, crypto_init}

pub record HandshakeResult : Type 0 where
  pub ok : Bool
  pub encrypted : Bool
  pub key_name : Bytes
  pub crypto : CryptoState

-- HandshakeResult{}, which both sides return on a failure.
abbrev pub failed : HandshakeResult
failed = record { ok = false; encrypted = false; key_name = []; crypto = no_crypto }

abbrev pub agreed : Bytes → HandshakeResult
agreed name = record { ok = true; encrypted = false; key_name = name; crypto = no_crypto }

abbrev pub agreed_encrypted : Bytes → CryptoState → HandshakeResult
agreed_encrypted name crypto = record {
  ok = true;
  encrypted = true;
  key_name = name;
  crypto = crypto;
}

abbrev rpc_version : ℕ
rpc_version = 1

-- The keys map: names and 32-byte keys.
abbrev pub Keys : Type 0
Keys = List (Bytes × Bytes)

unfoldable pub find_key : Bytes → Keys → Option Bytes
find_key name [] = none
find_key name ((n, k) ∷ keys) = if str_eq n name then some k else find_key name keys

-- What the client asks for and what the server decides: flags & RPC_FLAG_ENCRYPTED is the lowest
-- bit of the flags.
pub data Verdict : Type 0 where
  reject : Verdict
  accept : Verdict
  accept_encrypted : Bytes → Verdict

with_key : Option Bytes → Verdict
with_key none = reject
with_key (some key) = accept_encrypted key

unfoldable pub verdict : Keys → ℕ → Bytes → Verdict
unfolding with_key
verdict keys flags name =
    let encrypted = flags % 2 == 1 in
    if not (is_nil keys) && not encrypted
    then reject
    else if encrypted
    then with_key (find_key name keys)
    else accept

abbrev zero_nonce : Bytes
zero_nonce = replicate 24 0

-- flags: 1 with a key, else 0.
abbrev flags_of : Option Bytes → ℕ
flags_of none = 0
flags_of (some key) = 1

-- local_nonce: zeroes, unless encryption is asked for.
abbrev nonce_of : Option Bytes → Bytes → Bytes
nonce_of none fresh = zero_nonce
nonce_of (some key) fresh = fresh

-- A read that fails ends the handshake.
or_failed {ℓ} :
    {F : Type ℓ} → Option Bytes × F → (Bytes → F → HandshakeResult × F) → HandshakeResult × F
or_failed (none, fd) next = (failed, fd)
or_failed (some a, fd) next = next a fd

-- The value of one byte.
abbrev the_byte : Bytes → ℕ
the_byte [] = 0
the_byte (b ∷ s) = b

-- [version] [flags] [key_name_len] [key_name] [nonce]; the length is cut to 8 bits.
client_pieces : Bytes → Option Bytes → Bytes → List Bytes
client_pieces name key fresh =
    let name_len = length name % 256 in
    let nonce = nonce_of key fresh ∷ [] in
    (rpc_version ∷ [])
    ∷ (flags_of key ∷ [])
    ∷ (name_len ∷ [])
    ∷ (if name_len == 0 then nonce else take name_len name ∷ nonce)

-- [version] [status] [nonce]
abbrev server_pieces : ℕ → Bytes → List Bytes
server_pieces status nonce = (rpc_version ∷ []) ∷ (status ∷ []) ∷ nonce ∷ []

-- What the client makes of the answer.
pub client_result : Bytes → Option Bytes → Bytes → ℕ → Bytes → HandshakeResult
client_result name none local status remote = if status == 0 then agreed name else failed
client_result name (some key) local status remote =
    if status == 0 then agreed_encrypted name (crypto_init key local remote true) else failed

module _ (os : Socket) where
  open os use {Fd}

  -- Writes in order, their results ignored.
  write_pieces : Fd → List Bytes → Fd
  write_pieces fd [] = fd
  write_pieces fd (s ∷ pieces) = write_pieces (raw_write os fd s).1 pieces

  pub client_hello : Fd → Bytes → Option Bytes → Bytes → Fd
  unfolding write_pieces client_pieces
  client_hello fd name key fresh = write_pieces fd (client_pieces name key fresh)

  pub client_finish : Fd → Bytes → Option Bytes → Bytes → HandshakeResult × Fd
  client_finish fd name key fresh = or_failed (raw_read os fd 1) λ version fd.
      or_failed (raw_read os fd 1) λ status fd.
        or_failed (raw_read os fd 24)
          λ remote fd. (client_result name key (nonce_of key fresh) (the_byte status) remote, fd)

  pub client_handshake : Fd → Bytes → Option Bytes → Bytes → HandshakeResult × Fd
  client_handshake fd name key fresh = client_finish (client_hello fd name key fresh) name key fresh

  pub respond : Fd → ℕ → Bytes → Fd
  unfolding write_pieces
  respond fd status nonce = write_pieces fd (server_pieces status nonce)

  pub answer : Fd → Bytes → Bytes → Bytes → Verdict → HandshakeResult × Fd
  unfolding respond
  answer fd name client_nonce fresh reject = (failed, respond fd 1 zero_nonce)
  answer fd name client_nonce fresh accept = (agreed name, respond fd 0 zero_nonce)
  answer fd name client_nonce fresh (accept_encrypted key) =
      (agreed_encrypted name (crypto_init key fresh client_nonce false), respond fd 0 fresh)

  pub server_handshake : Fd → Keys → Bytes → HandshakeResult × Fd
  server_handshake fd keys fresh = or_failed (raw_read os fd 1) λ version fd.
      or_failed (raw_read os fd 1) λ flags fd. or_failed (raw_read os fd 1) λ name_len fd.
        or_failed (raw_read os fd (the_byte name_len)) λ name fd.
          or_failed (raw_read os fd 24) λ client_nonce fd.
            answer fd name client_nonce fresh (verdict keys (the_byte flags) name)
