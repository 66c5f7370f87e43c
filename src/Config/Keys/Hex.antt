-- ===== src/Config/Keys/Hex.antt =====
-- Bytes in hex, as hex_to_bytes reads them.
use gogol.Prelude.{
  ℕ, ◌+◌, ◌-◌, ◌/◌, ◌%◌, ◌<◌, ◌≡◌, refl, ap, [], ◌∷◌, arith, ltb, if◌then◌else◌, All,
}
use gogol.Text.{Bytes}
use gogol.Config.Keys.{hex_nibble, hex_to_bytes}

-- The digit of a nibble.
unfoldable pub hex_digit : ℕ → ℕ
hex_digit n = if ltb n 10 then b'0' + n else b'a' + n - 10

unfoldable pub to_hex : Bytes → Bytes
to_hex [] = []
to_hex (b ∷ s) = hex_digit (b / 16) ∷ hex_digit (b % 16) ∷ to_hex s

abbrev pub AreBytes : Bytes → Type 0
AreBytes = All (λ b. b < 256)

hex_nibble-hex_digit : (n : ℕ) → n < 16 → hex_nibble (hex_digit n) ≡ n
unfolding hex_nibble hex_digit
hex_nibble-hex_digit n h = ground arith

pub hex_to_bytes-to_hex : (s : Bytes) → AreBytes s → hex_to_bytes (to_hex s) ≡ s
unfolding hex_to_bytes to_hex
hex_to_bytes-to_hex [] h = refl
hex_to_bytes-to_hex (b ∷ s) h =
    rw
      (
        hex_nibble-hex_digit (b / 16) (omega (arith, h.0)),
        hex_nibble-hex_digit (b % 16) (omega arith),
        hex_to_bytes-to_hex s h.1,
      )
      (ap (λ c. c ∷ s) (omega (arith, h.0)))
