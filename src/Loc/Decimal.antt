-- ===== src/Loc/Decimal.antt =====
-- Decimal digits: std::to_string, and the value of a string of digits.
use gogol.Prelude.{
  ℕ, zero, suc, ◌+◌, ◌-◌, ◌*◌, ◌/◌, ◌%◌, ◌<◌, ◌≡◌, refl, Bool, true, false, ◌&&◌, [], ◌∷◌, ◌++◌,
  arith, ltb, leb, all, Bool-cases, inl, inr, is_nil,
}
use gogol.Text.{Bytes}

unfoldable pub is_digit : ℕ → Bool
is_digit c = leb b'0' c && leb c b'9'

-- The number that the digits stand for, behind `acc`.
unfoldable pub digits_value : ℕ → Bytes → ℕ
digits_value acc [] = acc
digits_value acc (c ∷ cs) = digits_value (acc * 10 + (c - b'0')) cs

-- The digits of `n`, with fuel for the divisions by ten.
to_digits : ℕ → ℕ → Bytes
to_digits zero n = []
to_digits (suc fuel) n = elim (ltb n 10) [
  | true ↦ (b'0' + n) ∷ []
  | false ↦ to_digits fuel (n / 10) ++ (b'0' + n % 10) ∷ []
]

unfoldable pub to_string : ℕ → Bytes
unfolding to_digits
to_string n = to_digits (suc n) n

digits_value-snoc :
    (acc : ℕ) (s : Bytes) (c : ℕ)
    → digits_value acc (s ++ c ∷ []) ≡ digits_value acc s * 10 + (c - b'0')
unfolding digits_value
digits_value-snoc acc [] c = refl
digits_value-snoc acc (x ∷ xs) c = digits_value-snoc (acc * 10 + (x - b'0')) xs c

digits_value-to_digits : (fuel n : ℕ) → n < fuel → digits_value 0 (to_digits fuel n) ≡ n
unfolding to_digits
digits_value-to_digits zero n h = elim h [ ]
digits_value-to_digits (suc fuel) n h = elim (Bool-cases (ltb n 10)) [
  | inl small ↦ rw (small, to_digits) (unfold digits_value in omega arith)
  | inr big ↦
      rw (big, to_digits, digits_value-snoc) (ground (arith, digits_value-to_digits fuel (n / 10)))
]

-- Reading back what was printed.
pub digits_value-to_string : (n : ℕ) → digits_value 0 (to_string n) ≡ n
unfolding to_string
digits_value-to_string n = digits_value-to_digits (suc n) n (omega arith)

all-snoc :
    (s : Bytes) (c : ℕ)
    → all is_digit s ≡ true
    → is_digit c ≡ true
    → all is_digit (s ++ c ∷ []) ≡ true
all-snoc [] c hs hc = rw hc
all-snoc (x ∷ xs) c hs hc = ground (arith, all-snoc xs c)

to_digits-digit : (fuel n : ℕ) → all is_digit (to_digits fuel n) ≡ true
unfolding to_digits
to_digits-digit zero n = refl
to_digits-digit (suc fuel) n = elim (Bool-cases (ltb n 10)) [
  | inl small ↦ rw (small, to_digits) (unfold is_digit in ground arith)
  | inr big ↦
      rw (big, to_digits)
        (all-snoc (to_digits fuel (n / 10)) _ (to_digits-digit fuel (n / 10))
          (unfold is_digit in ground arith))
]

pub to_string-digit : (n : ℕ) → all is_digit (to_string n) ≡ true
unfolding to_string
to_string-digit n = to_digits-digit (suc n) n

snoc-ne-nil : (s : Bytes) (c : ℕ) → is_nil (s ++ c ∷ []) ≡ false
snoc-ne-nil [] c = refl
snoc-ne-nil (x ∷ xs) c = refl

pub to_string-ne-nil : (n : ℕ) → is_nil (to_string n) ≡ false
unfolding to_string to_digits
to_string-ne-nil n = elim (Bool-cases (ltb n 10)) [
  | inl small ↦ rw (small, to_digits)
  | inr big ↦ rw (big, to_digits) (snoc-ne-nil (to_digits n (n / 10)) _)
]
