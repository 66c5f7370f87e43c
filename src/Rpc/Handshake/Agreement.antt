-- ===== src/Rpc/Handshake/Agreement.antt =====
-- The two sides of the handshake together: what each returns, given what the other sent.
use gogol.Prelude.{ℕ, ◌≡◌, false, Option, none, some}
use gogol.Text.{Bytes}
use gogol.Rpc.Socket.{Socket}
use gogol.Rpc.Crypto.{crypto_init}
use gogol.Rpc.Crypto.Session.{InStep}
use gogol.Rpc.Handshake.{
  HandshakeResult, failed, agreed, agreed_encrypted, Verdict, reject, accept, accept_encrypted,
  zero_nonce,
}

-- What both sides return. With encryption the client holds its own key and the server the one that
-- it has under that name; if these are the same, each end is in step with the other.
abbrev pub Agree : Bytes → Verdict → Option Bytes → HandshakeResult → HandshakeResult → Type 0
Agree name reject key client server = (client ≡ failed) × (server ≡ failed)
Agree name accept key client server = (key ≡ none) × (client ≡ agreed name) × (server ≡ agreed name)
Agree name (accept_encrypted k) key client server =
    (client ≡ agreed_encrypted name client.crypto)
    × (server ≡ agreed_encrypted name server.crypto)
    × (key ≡ some k → InStep client.crypto server.crypto × InStep server.crypto client.crypto)

-- The status and the nonce that the server answers with.
status_of : Verdict → ℕ
status_of reject = 1
status_of accept = 0
status_of (accept_encrypted k) = 0

reply_nonce : Verdict → Bytes → Bytes
reply_nonce reject fresh = zero_nonce
reply_nonce accept fresh = zero_nonce
reply_nonce (accept_encrypted k) fresh = fresh

-- What the server returns.
server_result : Verdict → Bytes → Bytes → Bytes → HandshakeResult
server_result reject name client_nonce fresh = failed
server_result accept name client_nonce fresh = agreed name
server_result (accept_encrypted k) name client_nonce fresh =
    agreed_encrypted name (crypto_init k fresh client_nonce false)

-- The server accepts without encryption only a client that has no key, and with it only one that
-- has a key.
IsVerdict : Verdict → Option Bytes → Type 0
IsVerdict reject key = Unit
IsVerdict accept key = key ≡ none
IsVerdict (accept_encrypted k) key = (c : Bytes) × (key ≡ some c)
