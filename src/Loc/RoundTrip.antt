-- ===== src/Loc/RoundTrip.antt =====
-- What `parse_entry_type` and `split_path_line` return on every input.
use native.Mathlib.Numerals.{add-one}
use gogol.Prelude.{
  ℕ, suc, ◌+◌, ◌^◌, ◌<◌, ◌≡◌, refl, sym, ap, ◌∙◌, ◌⊎◌, ◌↔◌, inl, inr, true, false, ◌&&◌, some,
  Option-cases, Bool-cases, [], ◌∷◌, ◌++◌, arith, ltb, ◌==◌, if◌then◌else◌, length, take, drop, all,
  is_nil, length-append, take-length_append, lt→ltb, length-drop, ==_iff, drop-length_cons,
}
use gogol.Text.{
  Bytes, codes, str_eq_iff, last_where, has_none, last_where-append, last_where-splits,
}
use gogol.Loc.{EntryType, parse_entry_type, entry_type_str, atoi_u32, split_path_line}
use gogol.Loc.Decimal.{is_digit, to_string, digits_value-to_string}

-- Exactly the three tokens are read, each as the type that is printed by it.
pub parse_entry_type_iff :
    (s : Bytes) (t : EntryType) → (parse_entry_type s ≡ some t) ↔ (s ≡ entry_type_str t)
unfolding parse_entry_type entry_type_str
parse_entry_type_iff s t =
    ground
      (arith, str_eq_iff s (codes "doc"), str_eq_iff s (codes "note"), str_eq_iff s (codes "term"))

-- Digits are not colons.
digits-no_colon : (ds : Bytes) → all is_digit ds ≡ true → has_none (λ x. x == b':') ds ≡ true
unfolding is_digit
digits-no_colon [] h = refl
digits-no_colon (d ∷ ds) h = ground (arith, digits-no_colon ds)

not_nil : (s : Bytes) → 0 < length s → is_nil s ≡ false
not_nil [] h = elim h [ ]
not_nil (x ∷ s) h = refl

pub drop-behind_suc :
    (path : Bytes) (c : ℕ) (ds : Bytes) → drop (suc (length path)) (path ++ (c ∷ ds)) ≡ ds
drop-behind_suc [] c ds = refl
drop-behind_suc (x ∷ path) c ds = drop-behind_suc path c ds

lt-length_behind :
    (path : Bytes) (c : ℕ) (ds : Bytes)
    → is_nil ds ≡ false
    → ltb (length path + 1) (length (path ++ (c ∷ ds))) ≡ true
lt-length_behind path c [] ne = cc
lt-length_behind path c (d ∷ ds) ne = lt→ltb _ _ (omega (arith, length-append path (c ∷ d ∷ ds)))

-- A colon and digits behind it are taken off, whatever stands before.
pub split_path_line-digits :
    (path ds : Bytes)
    → all is_digit ds ≡ true
    → is_nil ds ≡ false
    → split_path_line (path ++ (b':' ∷ ds)) ≡ (path, atoi_u32 ds)
unfolding split_path_line
split_path_line-digits path ds h ne = rw (
  last_where-append (λ x. x == b':') path b':' ds (digits-no_colon ds h) refl,
  split_path_line,
  drop-length_cons path b':' ds,
  lt-length_behind path b':' ds ne,
  h,
  take-length_append path (b':' ∷ ds),
)

-- No colon with digits behind it, at least one, is at the end of the text.
abbrev pub HasNoLine : Bytes → Type 0
HasNoLine input =
    (path ds : Bytes) → input ≡ path ++ (b':' ∷ ds) → all is_digit ds ≡ true → is_nil ds ≡ true

-- What the two outputs are: the input, where it has no line, and otherwise what the input is put
-- together from.
abbrev pub IsSplit : Bytes → Bytes × ℕ → Type 0
IsSplit input (path, line) =
    ((path ≡ input) × (line ≡ 0) × HasNoLine input)
    ⊎ ((ds : Bytes) × (input ≡ path ++ (b':' ∷ ds))
        × (all is_digit ds ≡ true)
        × (is_nil ds ≡ false)
        × (line ≡ atoi_u32 ds))

-- The same without the first case's condition.
abbrev IsCut : Bytes → Bytes × ℕ → Type 0
IsCut input (path, line) =
    ((path ≡ input) × (line ≡ 0))
    ⊎ ((ds : Bytes) × (input ≡ path ++ (b':' ∷ ds))
        × (all is_digit ds ≡ true)
        × (is_nil ds ≡ false)
        × (line ≡ atoi_u32 ds))

colon-IsCut :
    (input : Bytes) (k : ℕ)
    → input ≡ take k input ++ (b':' ∷ drop (suc k) input)
    → IsCut input (
        if ltb (k + 1) (length input) && all is_digit (drop (k + 1) input)
        then (take k input, atoi_u32 (drop (k + 1) input))
        else (input, 0))
colon-IsCut input k e =
    elim (Bool-cases (ltb (k + 1) (length input) && all is_digit (drop (k + 1) input))) [
      | inl taken ↦ rw taken (
          inr (
            drop (k + 1) input,
            rw (add-one k) e,
            ground arith,
            not_nil (drop (k + 1) input) (ground (arith, length-drop (k + 1) input)),
            refl,
          ))
      | inr left ↦ rw left (inl (refl, refl))
    ]

split_path_line-IsCut : (input : Bytes) → IsCut input (split_path_line input)
unfolding split_path_line
split_path_line-IsCut input = elim (Option-cases (last_where (λ x. x == b':') input)) [
  | inl e ↦ rw (e, split_path_line) (inl (refl, refl))
  | inr (k, e) ↦
      let (c, is_colon, split, _) = last_where-splits (λ x. x == b':') input k e in
      rw (e, split_path_line) (colon-IsCut input k (rw ((==_iff c b':').0 is_colon) at split))
]

longer : (path : Bytes) (c : ℕ) (ds : Bytes) → path ≡ path ++ (c ∷ ds) → ⊥
longer path c ds e =
    let size : length path ≡ length (path ++ (c ∷ ds)) = ap length e in
    absurd (omega (arith, size, length-append path (c ∷ ds)))

-- An input that is returned as it is has no line.
whole-HasNoLine : (input : Bytes) → (split_path_line input).0 ≡ input → HasNoLine input
whole-HasNoLine input whole path ds e digits = elim (Bool-cases (is_nil ds)) [
  | inl none_left ↦ none_left
  | inr some_left ↦
      let cut : (split_path_line input).0 ≡ path =
        rw (e, split_path_line-digits path ds digits some_left) refl in
      absurd (longer path b':' ds (sym cut ∙ whole ∙ e))
]

-- What `split_path_line` returns for any input: if the input ends in a colon and digits, at least
-- one, what stands before them and their number, and otherwise the input and 0.
pub split_path_line-IsSplit : (input : Bytes) → IsSplit input (split_path_line input)
split_path_line-IsSplit input = elim (split_path_line-IsCut input) [
  | inl (whole, zero_line) ↦ inl (whole, zero_line, whole-HasNoLine input whole)
  | inr split ↦ inr split
]

pub atoi_u32-to_string : (n : ℕ) → n < 2 ^ 32 → atoi_u32 (to_string n) ≡ n
unfolding atoi_u32
atoi_u32-to_string n h = rw (digits_value-to_string n) (omega arith)
