-- ===== src/Rpc/Crypto/Nonce.antt =====
-- A nonce is a number of 24 digits in base 256, lowest digit first. Counting does not repeat one.
use gogol.Prelude.{
  ℕ, zero, suc, ◌+◌, ◌*◌, ◌^◌, ◌<◌, ◌≡◌, ◌≢◌, refl, ap, ◌∙◌, [], ◌∷◌, arith, ltb, ◌-◌, ◌==◌,
  if◌then◌else◌, length, All,
}
use native.Mathlib.Nat.{pow-suc}
use gogol.Text.{Bytes}
use gogol.Rpc.Buffer.{le_value}
use gogol.Rpc.Crypto.{increment_nonce}

pub length-increment_nonce : (s : Bytes) → length (increment_nonce s) ≡ length s
unfolding increment_nonce
length-increment_nonce [] = refl
length-increment_nonce (b ∷ s) = ground (arith, length-increment_nonce s)

increment_nonce-bytes : (s : Bytes) → All (λ b. b < 256) s → All (λ b. b < 256) (increment_nonce s)
unfolding increment_nonce
increment_nonce-bytes [] h = tt
increment_nonce-bytes (b ∷ s) h = ground (arith, increment_nonce-bytes s h.1)

-- 256 ^ n, by recursion.
places : ℕ → ℕ
places zero = 1
places (suc n) = 256 * places n

places-pow : (n : ℕ) → places n ≡ 256 ^ n
unfolding places
places-pow zero = omega arith
places-pow (suc n) = omega (arith, places-pow n, pow-suc 256 n)

le_value-lt : (s : Bytes) → All (λ b. b < 256) s → le_value s < places (length s)
unfolding le_value places
le_value-lt [] h = omega arith
le_value-lt (b ∷ s) h = omega (arith, le_value-lt s h.1)

-- It counts up by one, and wraps to zero from the last nonce.
abbrev Counts : Bytes → Bytes → Type 0
Counts s t = (if le_value s + 1 == places (length s) then 0 else le_value s + 1) ≡ le_value t

increment_nonce-Counts : (s : Bytes) → All (λ b. b < 256) s → Counts s (increment_nonce s)
unfolding increment_nonce le_value places
increment_nonce-Counts [] h = refl
increment_nonce-Counts (b ∷ s) h = ground (arith, increment_nonce-Counts s h.1, le_value-lt s h.1)

-- The nonce that the message of number `n` uses.
pub nonce_after : ℕ → Bytes → Bytes
nonce_after zero s = s
nonce_after (suc n) s = increment_nonce (nonce_after n s)

length-nonce_after : (n : ℕ) (s : Bytes) → length (nonce_after n s) ≡ length s
unfolding nonce_after
length-nonce_after zero s = refl
length-nonce_after (suc n) s = length-increment_nonce (nonce_after n s) ∙ length-nonce_after n s

nonce_after-bytes :
    (n : ℕ) (s : Bytes) → All (λ b. b < 256) s → All (λ b. b < 256) (nonce_after n s)
unfolding nonce_after
nonce_after-bytes zero s h = h
nonce_after-bytes (suc n) s h = increment_nonce-bytes (nonce_after n s) (nonce_after-bytes n s h)

-- The value of a nonce, `n` messages on from the value `v`.
abbrev counted : ℕ → ℕ → ℕ → ℕ
counted p v n = if ltb (v + n) p then v + n else v + n - p

nonce_after-counted :
    (n : ℕ) (s : Bytes)
    → All (λ b. b < 256) s
    → n < places (length s)
    → le_value (nonce_after n s) ≡ counted (places (length s)) (le_value s) n
unfolding nonce_after
nonce_after-counted zero s h lt = ground (arith, le_value-lt s h)
nonce_after-counted (suc n) s h lt =
    let now = increment_nonce-Counts (nonce_after n s) (nonce_after-bytes n s h) in
    let size = ap places (length-nonce_after n s) in
    ground (arith, now, size, nonce_after-counted n s h, le_value-lt s h)

-- No two of 256 ^ length messages in a row use the same nonce.
pub nonce_after-ne :
    (i j : ℕ) (s : Bytes)
    → All (λ b. b < 256) s
    → i < j
    → j < 256 ^ length s
    → nonce_after i s ≢ nonce_after j s
nonce_after-ne i j s h lt small e = absurd (
    ground (
      arith,
      ap le_value e,
      places-pow (length s),
      nonce_after-counted i s h,
      nonce_after-counted j s h,
      le_value-lt s h,
    ))
