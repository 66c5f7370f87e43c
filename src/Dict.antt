-- ===== src/Dict.antt =====
-- std::map<std::string, V> as an association list in the order of its keys, by `find` and
-- `operator[]` with an assignment. std::less compares strings byte by byte.
pub mod Order
use gogol.Prelude.{
  ◌≡◌, refl, sym, ◌∙◌, Bool, true, false, not, ◌&&◌, ◌||◌, Option, none, some, List, [], ◌∷◌, arith,
  ltb, ◌==◌, if◌then◌else◌, All, Bool-cases, inl, inr,
}
use gogol.Text.{Bytes, str_eq, str_eq_iff, str_eq-apart}

abbrev pub Dict {ℓ} : Type ℓ → Type ℓ
Dict V = List (Bytes × V)

-- operator< of std::string.
unfoldable pub str_less : Bytes → Bytes → Bool
str_less [] [] = false
str_less [] (y ∷ ys) = true
str_less (x ∷ xs) [] = false
str_less (x ∷ xs) (y ∷ ys) = ltb x y || (x == y && str_less xs ys)

module _ {ℓ} {V : Type ℓ} where
  -- m.find(k), none for m.end().
  unfoldable pub get : Bytes → Dict V → Option V
  get k [] = none
  get k ((k', v) ∷ m) = let rest = get k m in if str_eq k k' then some v else rest

  -- m[k] = v.
  unfoldable pub put : Bytes → V → Dict V → Dict V
  put k v [] = (k, v) ∷ []
  put k v ((k', v') ∷ m) =
      let rest = put k v m in
      if str_eq k k'
      then (k, v) ∷ m
      else if str_less k k'
      then (k, v) ∷ (k', v') ∷ m
      else (k', v') ∷ rest

  pub get-put :
      (n k : Bytes) (v : V) (m : Dict V)
      → get n (put k v m) ≡ (if str_eq n k then some v else get n m)
  unfolding get put
  get-put n k v [] = refl
  get-put n k v ((k', v') ∷ m) = elim (Bool-cases (str_eq k k')) [
    | inl same ↦ rw same (rw ((str_eq_iff k k').0 same) (ground arith))
    | inr other ↦ ground (arith, get-put n k v m, str_eq_iff n k, str_eq_iff n k')
  ]

  -- m.erase(k).
  unfoldable pub erase : Bytes → Dict V → Dict V
  erase k [] = []
  erase k ((k', v) ∷ m) = let rest = erase k m in if str_eq k k' then rest else (k', v) ∷ rest

  pub get-erase :
      (n k : Bytes) (m : Dict V) → get n (erase k m) ≡ (if str_eq n k then none else get n m)
  unfolding get erase
  get-erase n k [] = ground arith
  get-erase n k ((k', v) ∷ m) = elim (Bool-cases (str_eq k k')) [
    | inl same ↦ rw same (
        get-erase n k m ∙ (elim (Bool-cases (str_eq n k)) [
          | inl hit ↦ rw hit refl
          | inr miss ↦ rw (miss, sym ((str_eq_iff k k').0 same), miss) refl
        ]))
    | inr other ↦ elim (Bool-cases (str_eq n k')) [
      | inl hit ↦ rw (other, hit, str_eq-apart k k' n other hit) refl
      | inr miss ↦ rw (other, miss) (get-erase n k m)
    ]
  ]

  -- m.count(k).
  unfoldable pub has_key : Bytes → Dict V → Bool
  has_key k [] = false
  has_key k ((k', v) ∷ m) = str_eq k k' || has_key k m

  -- No key stands twice.
  abbrev pub distinct_keys : Dict V → Bool
  distinct_keys [] = true
  distinct_keys ((k, v) ∷ m) = not (has_key k m) && distinct_keys m

  pub get_of_absent : (k : Bytes) (m : Dict V) → has_key k m ≡ false → get k m ≡ none
  unfolding get has_key
  get_of_absent k [] h = refl
  get_of_absent k ((k', v) ∷ m) h = ground (arith, get_of_absent k m)

pub All-put {ℓ} :
    {V : Type ℓ} (P : Bytes × V → Type 0) (k : Bytes) (v : V) (m : Dict V)
    → P (k, v)
    → All P m
    → All P (put k v m)
unfolding put
All-put P k v [] p h = (p, tt)
All-put P k v ((k', v') ∷ m) p h = elim (Bool-cases (str_eq k k')) [
  | inl same ↦ rw same (p, h.1)
  | inr other ↦ elim (Bool-cases (str_less k k')) [
    | inl less ↦ rw (other, less) (p, h)
    | inr more ↦ rw (other, more) (h.0, All-put P k v m p h.1)
  ]
]

pub All-erase {ℓ} :
    {V : Type ℓ} (P : Bytes × V → Type 0) (k : Bytes) (m : Dict V) → All P m → All P (erase k m)
unfolding erase
All-erase P k [] h = tt
All-erase P k ((k', v) ∷ m) h = elim (Bool-cases (str_eq k k')) [
  | inl same ↦ rw same (All-erase P k m h.1)
  | inr other ↦ rw other (h.0, All-erase P k m h.1)
]

pub All-get {ℓ} :
    {V : Type ℓ} (P : V → Type 0) (k : Bytes) (v : V) (m : Dict V)
    → All (λ e. P e.1) m
    → get k m ≡ some v
    → P v
unfolding get
All-get P k v [] h e = cc
All-get P k v ((k', v') ∷ m) h e = elim (Bool-cases (str_eq k k')) [
  | inl same ↦ (let e' : v' ≡ v = ground arith in rw (← e') h.0)
  | inr other ↦ All-get P k v m h.1 (ground arith)
]
