-- ===== src/Text.antt =====
-- std::string as a list of byte values, as the sources use it: equality, find, rfind, substr, and
-- the loop over the lines of a text that the chunkers and the link extractor share
-- (`while (i < text.size()) { eol = text.find('\n', i); ...; i = eol + 1; }`).
pub mod Lines
pub mod Segments
use Prim.Native.Char.{code}
use Prim.Native.String.{String}
use mathlib.Core.Option
use gogol.Prelude.{
  ℕ, zero, suc, ◌+◌, ◌-◌, ◌≤◌, ◌<◌, ◌≡◌, refl, sym, ap, ◌∙◌, ◌↔◌, Bool, true, false, ◌&&◌, Option,
  none, some, Option-cases, Bool-cases, inl, inr, List, [], ◌∷◌, ◌++◌, arith, ltb, ◌==◌,
  if◌then◌else◌, length, take, drop, all, get_elem?,
}

abbrev pub Bytes : Type 0
Bytes = List ℕ

-- The code points of a literal: its bytes, since every literal of the development is ASCII.
abbrev pub codes : String → Bytes
codes String.[] = []
codes (String.◌∷◌ c s) = code c ∷ codes s

-- operator== of std::string.
unfoldable pub str_eq : Bytes → Bytes → Bool
str_eq [] [] = true
str_eq (x ∷ xs) (y ∷ ys) = x == y && str_eq xs ys
str_eq _ _ = false

pub str_eq_iff : (a b : Bytes) → (str_eq a b ≡ true) ↔ (a ≡ b)
unfolding str_eq
str_eq_iff (x ∷ a) (y ∷ b) = ground (arith, str_eq_iff a b)
str_eq_iff _ _ = ground arith

pub str_eq_refl : (a : Bytes) → str_eq a a ≡ true
str_eq_refl a = (str_eq_iff a a).1 refl

-- A text that equals one of two unequal texts is not the other.
pub str_eq-apart : (k k' t : Bytes) → str_eq k k' ≡ false → str_eq t k' ≡ true → str_eq t k ≡ false
str_eq-apart k k' t e h = elim (Bool-cases (str_eq t k)) [
  | inl hit ↦
      let same : k ≡ k' = sym ((str_eq_iff t k).0 hit) ∙ (str_eq_iff t k').0 h in
      absurd (ground (arith, (str_eq_iff k k').1 same, e))
  | inr miss ↦ miss
]

-- The first place of a byte that passes the test.
unfoldable pub index_where : (ℕ → Bool) → Bytes → Option ℕ
index_where p [] = none
index_where p (x ∷ xs) =
    let rest = Option.map suc (index_where p xs) in if p x then some zero else rest

-- The last place of a byte that passes the test.
unfoldable pub last_where : (ℕ → Bool) → Bytes → Option ℕ
last_where p [] = none
last_where p (x ∷ xs) = elim (last_where p xs) [
  | some k ↦ some (suc k)
  | none ↦ if p x then some zero else none
]

-- s.find(c, pos); `none` is npos.
unfoldable pub find : ℕ → Bytes → ℕ → Option ℕ
unfolding index_where
find c s pos = Option.map (λ k. pos + k) (index_where (λ x. x == c) (drop pos s))

-- s.rfind(c).
unfoldable pub rfind : ℕ → Bytes → Option ℕ
unfolding last_where
rfind c s = last_where (λ x. x == c) s

-- s.substr(pos, n), at pos <= s.size().
abbrev pub substr : Bytes → ℕ → ℕ → Bytes
substr s pos n = take n (drop pos s)

-- No byte of the text passes the test.
abbrev pub has_none : (ℕ → Bool) → Bytes → Bool
has_none p = all (λ x. if p x then false else true)

pub index_where-none : (p : ℕ → Bool) (s : Bytes) → has_none p s ≡ true → index_where p s ≡ none
unfolding index_where
index_where-none p [] h = refl
index_where-none p (x ∷ xs) h = ground (arith, index_where-none p xs)

pub index_where-append :
    (p : ℕ → Bool) (s : Bytes) (c : ℕ) (t : Bytes)
    → has_none p s ≡ true
    → p c ≡ true
    → index_where p (s ++ (c ∷ t)) ≡ some (length s)
unfolding index_where
index_where-append p [] c t h e = ground arith
index_where-append p (x ∷ xs) c t h e = ground (arith, index_where-append p xs c t)

pub last_where-none : (p : ℕ → Bool) (s : Bytes) → has_none p s ≡ true → last_where p s ≡ none
unfolding last_where
last_where-none p [] h = refl
last_where-none p (x ∷ xs) h = ground (arith, last_where-none p xs)

pub last_where-append :
    (p : ℕ → Bool) (s : Bytes) (c : ℕ) (t : Bytes)
    → has_none p t ≡ true
    → p c ≡ true
    → last_where p (s ++ (c ∷ t)) ≡ some (length s)
unfolding last_where
last_where-append p [] c t h e = ground (arith, last_where-none p t)
last_where-append p (x ∷ xs) c t h e = ground (arith, last_where-append p xs c t)

pub last_where-has_none : (p : ℕ → Bool) (s : Bytes) → last_where p s ≡ none → has_none p s ≡ true
unfolding last_where
last_where-has_none p [] h = refl
last_where-has_none p (x ∷ xs) h = elim (Option-cases (last_where p xs)) [
  | inl e ↦ ground (arith, last_where-has_none p xs e)
  | inr (j, e) ↦ ground arith
]

-- A place that was found splits the text there, and the byte there passes the test.
pub last_where-splits :
    (p : ℕ → Bool) (s : Bytes) (k : ℕ)
    → last_where p s ≡ some k
    → (c : ℕ) × (p c ≡ true)
      × (s ≡ take k s ++ (c ∷ drop (suc k) s))
      × (has_none p (drop (suc k) s) ≡ true)
unfolding last_where
last_where-splits p [] k h = cc
last_where-splits p (x ∷ xs) k h = elim (Option-cases (last_where p xs)) [
  | inl e ↦
      let hit : p x ≡ true = ground arith in
      (let k' : k ≡ 0 = ground arith in rw k' (x, hit, refl, last_where-has_none p xs e))
  | inr (j, e) ↦
      let (c, pc, split, after) = last_where-splits p xs j e in
      (let k' : k ≡ suc j = ground arith in rw k' (c, pc, ap (◌∷◌ x) split, after))
]

pub index_where-splits :
    (p : ℕ → Bool) (s : Bytes) (k : ℕ)
    → index_where p s ≡ some k
    → (c : ℕ) × (p c ≡ true)
      × (s ≡ take k s ++ (c ∷ drop (suc k) s))
      × (has_none p (take k s) ≡ true)
unfolding index_where
index_where-splits p [] k h = cc
index_where-splits p (x ∷ xs) k h = elim (Bool-cases (p x)) [
  | inl e ↦ (let k' : k ≡ 0 = ground arith in rw k' (x, e, refl, refl))
  | inr e ↦ elim (Option-cases (index_where p xs)) [
    | inl none_left ↦ absurd (ground arith)
    | inr (j, found) ↦
        let (c, pc, split, before) = index_where-splits p xs j found in
        (let k' : k ≡ suc j = ground arith in rw k' (c, pc, ap (◌∷◌ x) split, ground arith))
  ]
]
