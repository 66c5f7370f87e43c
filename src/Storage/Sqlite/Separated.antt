-- ===== src/Storage/Sqlite/Separated.antt =====
-- split_sep and join_sep: lists of strings in one column.
use gogol.Prelude.{
  ℕ, zero, suc, ◌+◌, ◌-◌, ◌≤◌, ◌<◌, ◌≡◌, refl, ap, ◌∙◌, Bool, false, none, some, List, [], ◌∷◌,
  ◌++◌, arith, ◌==◌, if◌then◌else◌, is_nil, length, take, drop, All, Option-cases, Bool-cases, inl,
  inr, length-drop, drop-drop,
}
use gogol.Text.{Bytes, find, index_where, substr}
use gogol.Text.Lines.{index_where-lt, put_first}
use gogol.Text.Segments.{
  split, join, join_behind, split-join, split-HasNone, split-found, split-unfound, HasNone,
}

-- kSep.
abbrev pub sep : ℕ
sep = 0x1F

-- The loop, from `start` on, with fuel for its rounds.
unfoldable pub split_loop : ℕ → Bytes → ℕ → List Bytes
split_loop zero s start = []
split_loop (suc fuel) s start = elim (find sep s start) [
  | none ↦ drop start s ∷ []
  | some pos ↦ substr s start (pos - start) ∷ split_loop fuel s (pos + 1)
]

unfoldable pub split_sep : Bytes → List Bytes
unfolding split_loop
split_sep s = if is_nil s then [] else split_loop (suc (length s)) s 0

unfoldable pub join_sep : List Bytes → Bytes
join_sep v = join sep v

-- More rounds than bytes that are left are enough.
split_loop-split :
    (fuel : ℕ) (s : Bytes) (start : ℕ)
    → start ≤ length s
    → length s < start + fuel
    → split_loop fuel s start ≡ split sep (drop start s)
unfolding split_loop find
split_loop-split zero s start low high = absurd (omega (arith, low, high))
split_loop-split (suc fuel) s start low high =
    elim (Option-cases (index_where (λ x. x == sep) (drop start s))) [
      | inl e ↦ rw (e, split_loop, split-unfound sep (drop start s) e) refl
      | inr (k, e) ↦
          let within : k < length s - start =
            omega (arith, index_where-lt _ (drop start s) k e, length-drop start s) in
          let shift : start + k - start ≡ k = omega arith in
          let behind : start + k + 1 ≡ start + suc k = omega arith in
          rw
            (
              e,
              split_loop,
              shift,
              split-found sep (drop start s) k e,
              drop-drop (suc k) start s,
              ← behind,
            )
            (ap (◌∷◌ (take k (drop start s)))
              (split_loop-split fuel s (start + k + 1) (omega arith) (omega arith)))
    ]

-- The one list that a column does not give back: a single empty string.
abbrev pub is_lone_blank : List Bytes → Bool
is_lone_blank (x ∷ []) = is_nil x
is_lone_blank _ = false

is_nil-append : (x y : Bytes) (c : ℕ) → is_nil (x ++ c ∷ y) ≡ false
is_nil-append [] y c = refl
is_nil-append (x ∷ xs) y c = refl

join-full :
    (x : Bytes) (v : List Bytes) → is_lone_blank (x ∷ v) ≡ false → is_nil (join sep (x ∷ v)) ≡ false
unfolding join join_behind
join-full [] [] e = cc
join-full (c ∷ x) [] e = refl
join-full x (y ∷ v) e = is_nil-append x (y ++ join_behind sep v) sep

-- A list of strings without the separator is read back from its column.
pub split_sep-join_sep :
    (v : List Bytes) → All (HasNone sep) v → is_lone_blank v ≡ false → split_sep (join_sep v) ≡ v
unfolding split_sep join_sep join
split_sep-join_sep [] h e = refl
split_sep-join_sep (x ∷ v) h e =
    let full : is_nil (join sep (x ∷ v)) ≡ false = join-full x v e in
    rw full (
      split_loop-split (suc (length (join sep (x ∷ v)))) (join sep (x ∷ v)) 0 (omega arith)
        (omega arith)
      ∙ split-join sep x v h)

put_first-lone : (c : ℕ) (ls : List Bytes) → is_lone_blank (put_first c ls) ≡ false
put_first-lone c [] = refl
put_first-lone c (l ∷ []) = refl
put_first-lone c (l ∷ m ∷ ls) = refl

blank-put_first : (c : ℕ) (ls : List Bytes) → is_lone_blank ([] ∷ put_first c ls) ≡ false
blank-put_first c [] = refl
blank-put_first c (l ∷ ls) = refl

blank-split : (s : Bytes) → is_lone_blank ([] ∷ split sep s) ≡ false
unfolding split
blank-split [] = refl
blank-split (c ∷ s) = elim (Bool-cases (c == sep)) [
  | inl e ↦ rw e refl
  | inr e ↦ rw e (blank-put_first c (split sep s))
]

split-lone : (s : Bytes) (c : ℕ) → is_lone_blank (split sep (c ∷ s)) ≡ false
unfolding split
split-lone s c = elim (Bool-cases (c == sep)) [
  | inl e ↦ rw e (blank-split s)
  | inr e ↦ rw e (put_first-lone c (split sep s))
]

-- What a column gives fits in a column.
pub split_sep-columns :
    (s : Bytes) → All (HasNone sep) (split_sep s) × (is_lone_blank (split_sep s) ≡ false)
unfolding split_sep
split_sep-columns [] = (tt, refl)
split_sep-columns (c ∷ s) =
    rw (split_loop-split (suc (length (c ∷ s))) (c ∷ s) 0 (omega arith) (omega arith))
      (split-HasNone sep (c ∷ s), split-lone s c)
