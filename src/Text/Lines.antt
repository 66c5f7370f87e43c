-- ===== src/Text/Lines.antt =====
-- The loop over the lines of a text, by positions, and what it amounts to: a fold over the list
-- of the lines. `getlines` is also what repeated std::getline yields.
use gogol.Prelude.{
  ℕ, zero, suc, ◌+◌, ◌-◌, ◌≤◌, ◌<◌, ◌≡◌, refl, sym, ap, ◌∙◌, inl, inr, Bool, true, false, none,
  some, Option-cases, length-drop, take-all, drop-all, drop-drop, lt→ltb, le→ltb, List, [], ◌∷◌,
  ◌++◌, foldl, arith, ltb, ◌==◌, if◌then◌else◌, length, take, drop,
}
use native.Mathlib.Nat.{add-suc}
use gogol.Text.{Bytes, index_where, find, substr, has_none}

-- The end of the line that begins at `i`: the next newline, or the end of the text.
unfoldable pub line_end : Bytes → ℕ → ℕ
unfolding find
line_end text i = elim (find b'\n' text i) [ some k ↦ k | none ↦ length text ]

-- The loop, with fuel; the body is given each line.
unfoldable pub each_line {ℓ} : {S : Type ℓ} → ℕ → Bytes → ℕ → (Bytes → S → S) → S → S
unfolding line_end
each_line zero text i body s = s
each_line (suc fuel) text i body s = elim (ltb i (length text)) [
  | true ↦
      let eol = line_end text i in
      each_line fuel text (suc eol) body (body (substr text i (eol - i)) s)
  | false ↦ s
]

-- The byte goes in front of the first line.
abbrev pub put_first : ℕ → List Bytes → List Bytes
put_first c [] = (c ∷ []) ∷ []
put_first c (l ∷ ls) = (c ∷ l) ∷ ls

-- The lines of a text; a newline ends a line.
unfoldable pub getlines : Bytes → List Bytes
getlines [] = []
getlines (c ∷ cs) = let rest = getlines cs in if c == b'\n' then [] ∷ rest else put_first c rest

getlines-found :
    (t : Bytes) (k : ℕ)
    → index_where (λ x. x == b'\n') t ≡ some k
    → getlines t ≡ take k t ∷ getlines (drop (suc k) t)
unfolding getlines index_where
getlines-found [] k h = cc
getlines-found (x ∷ xs) k h = elim (Option-cases (index_where (λ x. x == b'\n') xs)) [
  | inl none_left ↦ ground arith
  | inr (j, found) ↦ ground (arith, getlines-found xs j found)
]

-- A line and the text behind its newline.
pub getlines-line :
    (l t : Bytes)
    → has_none (λ x. x == b'\n') l ≡ true
    → getlines (l ++ (b'\n' ∷ t)) ≡ l ∷ getlines t
unfolding getlines
getlines-line [] t h = ground arith
getlines-line (x ∷ xs) t h = ground (arith, getlines-line xs t)

getlines-unfound :
    (x : ℕ) (xs : Bytes)
    → index_where (λ x. x == b'\n') (x ∷ xs) ≡ none
    → getlines (x ∷ xs) ≡ (x ∷ xs) ∷ []
unfolding getlines index_where
getlines-unfound x [] h = ground arith
getlines-unfound x (y ∷ ys) h = ground (arith, getlines-unfound y ys)

-- The place of the first newline lies within the text.
pub index_where-lt : (p : ℕ → Bool) (t : Bytes) (k : ℕ) → index_where p t ≡ some k → k < length t
unfolding index_where
index_where-lt p [] k h = cc
index_where-lt p (x ∷ xs) k h = elim (Option-cases (index_where p xs)) [
  | inl none_left ↦ ground arith
  | inr (j, found) ↦ ground (arith, index_where-lt p xs j found)
]

module _ (text : Bytes) (i : ℕ) {x : ℕ} {xs : Bytes} (here : drop i text ≡ x ∷ xs) where
  lt_of_drop : i < length text
  lt_of_drop = omega (arith, ap length here, length-drop i text)

  line_end-found :
      (k : ℕ) → index_where (λ y. y == b'\n') (x ∷ xs) ≡ some k → line_end text i ≡ i + k
  unfolding line_end
  line_end-found k e = rw (here, line_end) (rw (e, line_end) refl)

  line_end-unfound : index_where (λ y. y == b'\n') (x ∷ xs) ≡ none → line_end text i ≡ length text
  unfolding line_end
  line_end-unfound e = rw (here, line_end) (rw (e, line_end) refl)

  whole : length (x ∷ xs) ≤ length text - i
  whole = omega (arith, ap length here, length-drop i text)

  shift : (k : ℕ) → i + k - i ≡ k
  shift k = omega arith

  rest : (k : ℕ) → drop (suc k) (x ∷ xs) ≡ drop (suc (i + k)) text
  rest k =
      ap (drop (suc k)) (sym here) ∙ drop-drop (suc k) i text ∙ ap (λ n. drop n text) (add-suc i k)

  line_end-ge : i ≤ line_end text i
  line_end-ge = elim (Option-cases (index_where (λ y. y == b'\n') (x ∷ xs))) [
    | inl e ↦ rw (line_end-unfound e) (omega (arith, lt_of_drop))
    | inr (k, e) ↦ rw (line_end-found k e) (omega arith)
  ]

  -- The line at `i` is the first of the lines from there on, and the loop goes on behind it.
  getlines-line_end :
      getlines (x ∷ xs)
      ≡ substr text i (line_end text i - i) ∷ getlines (drop (suc (line_end text i)) text)
  getlines-line_end = elim (Option-cases (index_where (λ y. y == b'\n') (x ∷ xs))) [
    | inl e ↦
        rw
          (
            line_end-unfound e,
            here,
            take-all (length text - i) (x ∷ xs) whole,
            drop-all (suc (length text)) text (omega arith),
          )
          (getlines-unfound x xs e ∙ ap (◌∷◌ (x ∷ xs)) (unfold getlines in refl))
    | inr (k, e) ↦ rw (line_end-found k e, shift k, here, ← rest k) (getlines-found (x ∷ xs) k e)
  ]

module _ {ℓ} {S : Type ℓ} (body : Bytes → S → S) where
  abbrev over : S → List Bytes → S
  over = foldl (λ s l. body l s)

  abbrev Folds : ℕ → Bytes → Type ℓ
  Folds fuel text =
      (i : ℕ) (s : S)
      → length text ≤ i + fuel
      → each_line fuel text i body s ≡ over s (getlines (drop i text))

  each_line-round :
      (fuel : ℕ) (text : Bytes) (t : Bytes) (i : ℕ) (s : S)
      → drop i text ≡ t
      → Folds fuel text
      → length text ≤ i + suc fuel
      → each_line (suc fuel) text i body s ≡ over s (getlines t)
  unfolding each_line
  each_line-round fuel text [] i s e next h =
      rw (le→ltb i (length text) (omega (arith, ap length e, length-drop i text)), each_line)
        (unfold getlines in refl)
  each_line-round fuel text (x ∷ xs) i s e next h =
      rw (lt→ltb i (length text) (lt_of_drop text i e), each_line, getlines-line_end text i e)
        (next (suc (line_end text i)) _ (omega (arith, line_end-ge text i e)))

  -- With fuel for the rest of the text, the loop from `i` on is the fold over the lines there.
  pub each_line-getlines : (fuel : ℕ) (text : Bytes) → Folds fuel text
  each_line-getlines zero text i s h =
      rw (drop-all i text (omega arith)) (unfold each_line getlines in refl)
  each_line-getlines (suc fuel) text i s h =
      each_line-round fuel text (drop i text) i s refl (each_line-getlines fuel text) h
