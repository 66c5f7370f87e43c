-- ===== src/Config/Keys.antt =====
-- load_keys of src/config/config.cpp: the encryption keys of the clients, in hex.
pub mod Hex
pub mod RoundTrip
pub mod Length
use gogol.Prelude.{
  ℕ, ◌+◌, ◌-◌, ◌*◌, ◌%◌, Bool, true, false, ◌&&◌, Option, none, some, List, [], ◌∷◌, foldl, leb,
  ◌==◌, if◌then◌else◌, length,
}
use gogol.Text.{Bytes, codes, str_eq}
use gogol.Text.Lines.{getlines}
use gogol.Dict.{Dict, put}
use gogol.Config.{trim, is_skipped, is_header, key_value}

unfoldable pub hex_nibble : ℕ → ℕ
hex_nibble c =
    if leb b'0' c && leb c b'9'
    then c - b'0'
    else if leb b'a' c && leb c b'f'
    then 10 + c - b'a'
    else if leb b'A' c && leb c b'F'
    then 10 + c - b'A'
    else 0

-- A last digit without a partner is left out. The shift and the or are a sum, since the second
-- nibble is below 16.
unfoldable pub hex_to_bytes : Bytes → Bytes
hex_to_bytes [] = []
hex_to_bytes (c ∷ []) = []
hex_to_bytes (c ∷ d ∷ hex) = (hex_nibble c * 16 + hex_nibble d) % 256 ∷ hex_to_bytes hex

pub record KeyReading : Type 0 where
  pub in_keys : Bool
  pub keys : Dict Bytes

-- A line of the section: a key is kept if it has 32 bytes.
unfoldable pub add_key : Option (Bytes × Bytes) → Dict Bytes → Dict Bytes
add_key none keys = keys
add_key (some (name, hex_val)) keys =
    let bytes = hex_to_bytes hex_val in if length bytes == 32 then put name bytes keys else keys

-- The body of the loop.
unfoldable pub keys_line : KeyReading → Bytes → KeyReading
keys_line s raw =
    let line = trim raw in
    if is_skipped line
    then s
    else if is_header line
    then record s { in_keys = str_eq line (codes "[keys]") }
    else if s.in_keys
    then record s { keys = add_key (key_value line) s.keys }
    else s

unfoldable pub load_keys : Option Bytes → Dict Bytes
load_keys none = []
load_keys (some text) =
    (foldl keys_line (record { in_keys = false; keys = [] }) (getlines text)).keys
