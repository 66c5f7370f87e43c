-- ===== src/Rpc/Handshake/Tests.antt =====
-- A client with a key meets a server that knows it.
use gogol.Prelude.{◌≡◌, refl, [], ◌∷◌, ◌++◌, replicate}
use gogol.Text.{Bytes, codes, str_eq}
use gogol.Rpc.Pipe.{Pipe}
use gogol.Rpc.Handshake.{Keys, find_key, verdict, reject, accept, accept_encrypted}

abbrev keys : Keys
keys = (codes "home", replicate 32 9) ∷ []

verdict_tests :
    (verdict keys 0 (codes "home") ≡ reject)
    × (verdict keys 1 (codes "home") ≡ accept_encrypted (replicate 32 9))
    × (verdict keys 1 (codes "work") ≡ reject)
    × (verdict [] 1 (codes "home") ≡ reject)
    × (verdict [] 0 [] ≡ accept)
unfolding verdict find_key str_eq
verdict_tests = (refl, refl, refl, refl, refl)

abbrev up : Bytes
up = 1 ∷ 1 ∷ 4 ∷ (codes "home" ++ replicate 24 5)

abbrev down : Bytes
down = 1 ∷ 0 ∷ replicate 24 6

abbrev client_end : Pipe
client_end = record { incoming = down; outgoing = [] }

abbrev server_end : Pipe
server_end = record { incoming = up; outgoing = [] }
