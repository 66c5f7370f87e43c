-- ===== src/Rpc/Buffer/Bounds.antt =====
-- MsgReader stays within its buffer: what each read takes, and where it leaves the position.
use gogol.Prelude.{
  ℕ, zero, suc, ◌+◌, ◌^◌, ◌≤◌, ◌<◌, ◌≡◌, refl, ◌⊎◌, Option, none, some, [], ◌∷◌, arith, Bool-cases,
  inl, inr, ltb, ltb→lt, ltb→le, if◌then◌else◌, length, take, drop, All, All-take, All-drop,
  length-take,
}
use gogol.Text.{Bytes}
use gogol.Rpc.Buffer.{
  MsgReader, size_add, le_value, byte_at, get_u8, get_u32, get_float, get_bytes, get_str,
}

-- The position lies in the buffer, which holds bytes and leaves room below 2^64 for a 32-bit
-- length.
pub record InBounds (r : MsgReader) : Type 0 where
  pub within : r.pos ≤ length r.content
  pub fits : length r.content + 2 ^ 32 ≤ 2 ^ 64
  pub bytes : All (λ b. b < 256) r.content

-- Where the `n` bytes are not there the read fails and moves nothing; else it takes just these.
abbrev pub Reads : {A : Type 0} → MsgReader → ℕ → (Bytes → A) → Option A × MsgReader → Type 0
Reads r n value result =
    ((length r.content < r.pos + n) × (result ≡ (none, r)))
    ⊎ ((r.pos + n ≤ length r.content)
        × (result ≡ (some (value (take n (drop r.pos r.content))), record r { pos = r.pos + n })))

-- One byte, as a number.
abbrev pub first_byte : Bytes → ℕ
first_byte [] = 0
first_byte (b ∷ bs) = b

byte_at-first : (s : Bytes) (i : ℕ) → byte_at s i ≡ first_byte (take 1 (drop i s))
unfolding byte_at
byte_at-first [] zero = refl
byte_at-first [] (suc i) = refl
byte_at-first (x ∷ s) zero = refl
byte_at-first (x ∷ s) (suc i) = byte_at-first s i

no_wrap : {r : MsgReader} (n : ℕ) → InBounds r → n < 2 ^ 32 → size_add r.pos n ≡ r.pos + n
no_wrap n b h = omega arith

-- The body that the fixed-size reads share.
Reads-if :
    {A : Type 0} {r : MsgReader} (n : ℕ) (value : Bytes → A)
    → InBounds r
    → n < 2 ^ 32
    → Reads r n value (
        if ltb (length r.content) (size_add r.pos n)
        then (none, r)
        else (some (value (take n (drop r.pos r.content))), record r { pos = size_add r.pos n }))
Reads-if {r = r} n value b h = elim (Bool-cases (ltb (length r.content) (r.pos + n))) [
  | inl short ↦ rw (no_wrap n b h, short) (inl (ltb→lt _ _ short, refl))
  | inr there ↦ rw (no_wrap n b h, there) (inr (ltb→le _ _ there, refl))
]

le_value-lt : (s : Bytes) → All (λ b. b < 256) s → length s ≤ 4 → le_value s < 2 ^ 32
unfolding le_value
le_value-lt [] h n = omega arith
le_value-lt (a ∷ []) h n = omega arith
le_value-lt (a ∷ b ∷ []) h n = omega arith
le_value-lt (a ∷ b ∷ c ∷ []) h n = omega arith
le_value-lt (a ∷ b ∷ c ∷ d ∷ []) h n = omega arith
le_value-lt (a ∷ b ∷ c ∷ d ∷ e ∷ s) h n = absurd (omega arith)

-- A string is a length and that many bytes. With no room for the length nothing moves; with no room
-- for the text the reader stands behind the length.
abbrev pub ReadsStr : MsgReader → Option Bytes × MsgReader → Type 0
ReadsStr r result =
    ((length r.content < r.pos + 4) × (result ≡ (none, r)))
    ⊎ ((r.pos + 4 ≤ length r.content)
        × Reads (record r { pos = r.pos + 4 }) (le_value (take 4 (drop r.pos r.content))) (λ s. s)
            result)

module _ {r : MsgReader} (b : InBounds r) where
  pub behind : (n : ℕ) → r.pos + n ≤ length r.content → InBounds (record r { pos = r.pos + n })
  behind n h = record { within = h; fits = b.fits; bytes = b.bytes }

  pub get_u8-Reads : Reads r 1 first_byte (get_u8 r)
  unfolding get_u8
  get_u8-Reads = rw (byte_at-first r.content r.pos) (Reads-if 1 first_byte b (omega arith))

  pub get_u32-Reads : Reads r 4 le_value (get_u32 r)
  unfolding get_u32
  get_u32-Reads = Reads-if 4 le_value b (omega arith)

  pub get_float-Reads : Reads r 4 le_value (get_float r)
  unfolding get_float
  get_float-Reads = Reads-if 4 le_value b (omega arith)

  get_bytes-Reads : (n : ℕ) → n < 2 ^ 32 → Reads r n (λ s. s) (get_bytes n r)
  unfolding get_bytes
  get_bytes-Reads n h = Reads-if n (λ s. s) b h

  header-lt : le_value (take 4 (drop r.pos r.content)) < 2 ^ 32
  header-lt =
      le_value-lt _ (All-take (λ x. x < 256) 4 _ (All-drop _ r.pos r.content b.bytes))
        (omega (arith, length-take 4 (drop r.pos r.content)))

  pub get_str-Reads : ReadsStr r (get_str r)
  unfolding get_str get_bytes
  get_str-Reads = elim get_u32-Reads [
    | inl (short, e) ↦ rw (e, get_str) (inl (short, refl))
    | inr (there, e) ↦
        rw (e, get_str)
          (inr (
            there,
            Reads-if (le_value (take 4 (drop r.pos r.content))) (λ s. s) (behind 4 there) header-lt,
          ))
  ]

-- Every read of MsgReader takes what stands at the position if it is all there, and fails if not.
pub get-Reads :
    {r : MsgReader} (n : ℕ)
    → InBounds r
    → n < 2 ^ 32
    → Reads r 1 first_byte (get_u8 r)
      × Reads r 4 le_value (get_u32 r)
      × Reads r 4 le_value (get_float r)
      × Reads r n (λ s. s) (get_bytes n r)
      × ReadsStr r (get_str r)
get-Reads n b h =
    (get_u8-Reads b, get_u32-Reads b, get_float-Reads b, get_bytes-Reads b n h, get_str-Reads b)
