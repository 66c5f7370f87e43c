-- ===== src/Text/Segments.antt =====
-- The segments of a text between separators, by structure.
use gogol.Prelude.{
  ℕ, suc, ◌≡◌, refl, sym, append_assoc, ap, ◌∙◌, inl, inr, true, false, none, some, Option-cases,
  List, [], ◌∷◌, ◌++◌, arith, ◌==◌, if◌then◌else◌, take, drop, All, Bool-cases, append-nil,
}
use gogol.Text.{Bytes, index_where, has_none}
use gogol.Text.Lines.{put_first}

-- All segments, the empty ones too; a text without a separator is one segment.
unfoldable pub split : ℕ → Bytes → List Bytes
split sep [] = [] ∷ []
split sep (c ∷ s) = let rest = split sep s in if c == sep then [] ∷ rest else put_first c rest

pub split-found :
    (sep : ℕ) (t : Bytes) (k : ℕ)
    → index_where (λ x. x == sep) t ≡ some k
    → split sep t ≡ take k t ∷ split sep (drop (suc k) t)
unfolding split index_where
split-found sep [] k h = cc
split-found sep (x ∷ xs) k h = elim (Option-cases (index_where (λ x. x == sep) xs)) [
  | inl none_left ↦ ground arith
  | inr (j, found) ↦ ground (arith, split-found sep xs j found)
]

pub split-unfound :
    (sep : ℕ) (t : Bytes) → index_where (λ x. x == sep) t ≡ none → split sep t ≡ t ∷ []
unfolding split index_where
split-unfound sep [] h = refl
split-unfound sep (x ∷ xs) h = ground (arith, split-unfound sep xs)

pub split-append :
    (sep : ℕ) (s t : Bytes)
    → has_none (λ x. x == sep) s ≡ true
    → split sep (s ++ (sep ∷ t)) ≡ s ∷ split sep t
unfolding split
split-append sep [] t h = ground arith
split-append sep (x ∷ xs) t h = ground (arith, split-append sep xs t)

pub split-single : (sep : ℕ) (s : Bytes) → has_none (λ x. x == sep) s ≡ true → split sep s ≡ s ∷ []
unfolding split
split-single sep [] h = refl
split-single sep (x ∷ xs) h = ground (arith, split-single sep xs)

abbrev pub HasNone : ℕ → Bytes → Type 0
HasNone sep s = has_none (λ x. x == sep) s ≡ true

put_first-HasNone :
    (sep c : ℕ) (xs : List Bytes)
    → (c == sep) ≡ false
    → All (HasNone sep) xs
    → All (HasNone sep) (put_first c xs)
put_first-HasNone sep c [] h all = (ground arith, tt)
put_first-HasNone sep c (x ∷ xs) h all = (ground arith, all.1)

-- No segment holds a separator.
pub split-HasNone : (sep : ℕ) (s : Bytes) → All (HasNone sep) (split sep s)
unfolding split
split-HasNone sep [] = (refl, tt)
split-HasNone sep (c ∷ s) = elim (Bool-cases (c == sep)) [
  | inl hit ↦ rw hit (refl, split-HasNone sep s)
  | inr miss ↦ rw miss (put_first-HasNone sep c (split sep s) miss (split-HasNone sep s))
]

-- The segments with the separator between them.
unfoldable pub join_behind : ℕ → List Bytes → Bytes
join_behind sep [] = []
join_behind sep (x ∷ xs) = sep ∷ (x ++ join_behind sep xs)

unfoldable pub join : ℕ → List Bytes → Bytes
unfolding join_behind
join sep [] = []
join sep (x ∷ xs) = x ++ join_behind sep xs

pub split-join :
    (sep : ℕ) (x : Bytes) (xs : List Bytes)
    → All (HasNone sep) (x ∷ xs)
    → split sep (join sep (x ∷ xs)) ≡ x ∷ xs
unfolding join join_behind
split-join sep x [] h = rw (append-nil x) (split-single sep x h.0)
split-join sep x (y ∷ ys) h =
    split-append sep x (y ++ join_behind sep ys) h.0 ∙ ap (◌∷◌ x) (split-join sep y ys h.1)

join_behind-append :
    (sep : ℕ) (xs ys : List Bytes)
    → join_behind sep (xs ++ ys) ≡ join_behind sep xs ++ join_behind sep ys
unfolding join_behind
join_behind-append sep [] ys = refl
join_behind-append sep (x ∷ xs) ys =
    ap (λ t. sep ∷ (x ++ t)) (join_behind-append sep xs ys)
    ∙ ap (◌∷◌ sep) (sym (append_assoc x (join_behind sep xs) (join_behind sep ys)))

pub join-last :
    (sep : ℕ) (x : Bytes) (xs : List Bytes) (last : Bytes)
    → join sep ((x ∷ xs) ++ last ∷ []) ≡ join sep (x ∷ xs) ++ (sep ∷ last)
unfolding join join_behind
join-last sep x xs last =
    ap (◌++◌ x) (
      join_behind-append sep xs (last ∷ [])
      ∙ ap (λ t. join_behind sep xs ++ (sep ∷ t)) (append-nil last))
    ∙ sym (append_assoc x (join_behind sep xs) (sep ∷ last))

-- The segments of a joined text that goes on behind one more separator.
pub split-join_append :
    (sep : ℕ) (x : Bytes) (xs : List Bytes) (t : Bytes)
    → All (HasNone sep) (x ∷ xs)
    → split sep (join sep (x ∷ xs) ++ (sep ∷ t)) ≡ (x ∷ xs) ++ split sep t
unfolding join join_behind
split-join_append sep x [] t h = rw (append-nil x) (split-append sep x t h.0)
split-join_append sep x (y ∷ ys) t h =
    rw (append_assoc x (sep ∷ (y ++ join_behind sep ys)) (sep ∷ t)) (
      split-append sep x ((y ++ join_behind sep ys) ++ (sep ∷ t)) h.0
      ∙ ap (◌∷◌ x) (split-join_append sep y ys t h.1))
