-- ===== src/Storage/Sqlite/Keyed.antt =====
-- Tables whose rows have a key of their own, as the entries of a std::map: the notes (MemEntry of
-- src/storage/mem_store.h) and the glossary.
use mathlib.Core.List.{Permᴰ}
use gogol.Prelude.{
  ℕ, ◌≡◌, refl, sym, ap, ap₂, ◌∙◌, Bool, true, false, ◌⊎◌, Option, none, some, List, [], ◌∷◌, ◌++◌,
  ◌↔◌, map, arith, keep, All, Bool-cases, inl, inr,
}
use gogol.Text.{Bytes, str_eq, str_eq_iff}
use gogol.Dict.{Dict, get, put, get-put, has_key, distinct_keys}
use gogol.Storage.Sqlite.{Table, Value, Row, column, key_of, IsNew, Database, insert_all}
use gogol.Storage.Sqlite.Kept.{
  keep-append, Permᴰ-keep, not-false, and-left, and-right, or-left, or-right,
}
use gogol.Storage.Sqlite.Rows.{AreNew}
use gogol.Storage.Sqlite.Separated.{split_sep, join_sep}

pub record MemEntry : Type 0 where
  pub content : Bytes
  pub sources : List Bytes
  pub timestamp : ℕ

unfoldable pub note_row : Bytes × MemEntry → Row
note_row (topic, entry) =
    Value.text topic
    ∷ Value.text entry.content
    ∷ Value.int entry.timestamp
    ∷ Value.text (join_sep entry.sources)
    ∷ []

unfoldable pub term_row : Bytes × Bytes → Row
term_row (term, expansion) = Value.text term ∷ Value.text expansion ∷ []

-- m[key] = value for each row of a SELECT.
unfoldable pub fill {ℓ} : {V : Type ℓ} → (Row → Bytes) → (Row → V) → Dict V → List Row → Dict V
fill key value m [] = m
fill key value m (row ∷ rs) = fill key value (put (key row) (value row) m) rs

module _ (sqlite : Database) where
  open sqlite use {Db, as_int, as_text, delete, select}

  abbrev pub row_key : Row → Bytes
  row_key row = as_text (column 0 row)

  unfoldable pub save_mem : Dict MemEntry → Db → Db
  unfolding note_row
  save_mem store db =
      insert_all sqlite Table.notes note_row store (delete Table.notes (λ r. true) db)

  unfoldable pub note_of_row : Row → MemEntry
  note_of_row row = record {
    content = as_text (column 1 row);
    sources = split_sep (as_text (column 3 row));
    timestamp = as_int (column 2 row);
  }

  -- The output `store`; the result is true.
  unfoldable pub load_mem : Db → Dict MemEntry
  unfolding fill note_of_row
  load_mem db = fill row_key note_of_row [] (select Table.notes (λ r. true) db)

  unfoldable pub save_glossary : Dict Bytes → Db → Db
  unfolding term_row
  save_glossary glossary db =
      insert_all sqlite Table.glossary term_row glossary (delete Table.glossary (λ r. true) db)

  unfoldable pub load_glossary : Db → Dict Bytes
  unfolding fill
  load_glossary db =
      fill row_key (λ row. as_text (column 1 row)) [] (select Table.glossary (λ r. true) db)

-- A list with at most one element has no other order.
pub Permᴰ-nil {ℓ} : {A : Type ℓ} {xs ys : List A} → Permᴰ xs ys → ys ≡ [] → xs ≡ []
Permᴰ-nil Permᴰ.nil e = refl
Permᴰ-nil (Permᴰ.cons f d) e = cc
Permᴰ-nil (Permᴰ.swap f g) e = cc
Permᴰ-nil (Permᴰ.trans c d) e = Permᴰ-nil c (Permᴰ-nil d e)

pub Permᴰ-single {ℓ} :
    {A : Type ℓ} {xs ys : List A} (x : A) → Permᴰ xs ys → ys ≡ x ∷ [] → xs ≡ x ∷ []
Permᴰ-single x Permᴰ.nil e = cc
Permᴰ-single x (Permᴰ.cons {a = a} {b = b} {l₁ = l₁} {l₂ = l₂} f d) e =
    let head : b ≡ x = cc in let tail : l₂ ≡ [] = cc in ap₂ ◌∷◌ (f ∙ head) (Permᴰ-nil d tail)
Permᴰ-single x (Permᴰ.swap f g) e = cc
Permᴰ-single x (Permᴰ.trans c d) e = Permᴰ-single x c (Permᴰ-single x d e)

module _ {ℓ} {V : Type ℓ} (key : Row → Bytes) (value : Row → V) where
  abbrev pub last_of : Option V → List Row → Option V
  last_of o [] = o
  last_of o (row ∷ rs) = last_of (some (value row)) rs

  -- A value is there where one was, or where the rows are not none.
  pub last_of-none :
      (o : Option V) (rs : List Row) → (last_of o rs ≡ none) ↔ ((o ≡ none) × (rs ≡ []))
  last_of-none o [] = (λ e. (e, refl), λ h. h.0)
  last_of-none o (row ∷ rs) = (
    λ e. let h : some (value row) ≡ none = ((last_of-none (some (value row)) rs).0 e).0 in cc,
    λ h. (let e : row ∷ rs ≡ [] = h.1 in cc),
  )

  -- The last row of a key wins.
  pub get-fill :
      (f : Bytes) (m : Dict V) (rs : List Row)
      → get f (fill key value m rs) ≡ last_of (get f m) (keep (λ r. str_eq f (key r)) rs)
  unfolding fill
  get-fill f m [] = refl
  get-fill f m (row ∷ rs) = elim (Bool-cases (str_eq f (key row))) [
    | inl e ↦
        get-fill f (put (key row) (value row) m) rs ∙ rw (get-put f (key row) (value row) m, e) refl
    | inr e ↦
        get-fill f (put (key row) (value row) m) rs ∙ rw (get-put f (key row) (value row) m, e) refl
  ]

  module _ (row : Bytes × V → Row) where
    abbrev pub IsReadBack : Bytes × V → Type ℓ
    IsReadBack p = (key (row p) ≡ p.0) × (value (row p) ≡ p.1)

    keep_absent :
        (f : Bytes) (m : Dict V)
        → has_key f m ≡ false
        → All IsReadBack m
        → keep (λ r. str_eq f (key r)) (map row m) ≡ []
    unfolding has_key
    keep_absent f [] h back = refl
    keep_absent f (p ∷ m) h back = elim (Bool-cases (str_eq f p.0)) [
      | inl e ↦ absurd (ground (arith, h, e))
      | inr e ↦ rw (back.0.0, e) (keep_absent f m (ground (arith, h, e)) back.1)
    ]

    -- A key of the map has one row, another key none.
    keep_key :
        (f : Bytes) (m : Dict V)
        → distinct_keys m ≡ true
        → All IsReadBack m
        → ((keep (λ r. str_eq f (key r)) (map row m) ≡ []) × (get f m ≡ none))
          ⊎ ((r : Row) × (keep (λ r. str_eq f (key r)) (map row m) ≡ r ∷ [])
              × (get f m ≡ some (value r)))
    unfolding get
    keep_key f [] h back = inl (refl, refl)
    keep_key f (p ∷ m) h back = elim (Bool-cases (str_eq f p.0)) [
      | inl e ↦
          let absent : has_key f m ≡ false =
            rw ((str_eq_iff f p.0).0 e) (not-false (has_key p.0 m) (and-left _ _ h)) in
          rw (back.0.0, e)
            (inr (row p, ap (◌∷◌ (row p)) (keep_absent f m absent back.1), ap some (sym back.0.1)))
      | inr e ↦ rw (back.0.0, e) (keep_key f m (and-right _ _ h) back.1)
    ]

    pub get-fill-rows :
        (m : Dict V) (rs : List Row)
        → distinct_keys m ≡ true
        → All IsReadBack m
        → Permᴰ rs (map row m)
        → (f : Bytes) → get f (fill key value [] rs) ≡ get f m
    unfolding get
    get-fill-rows m rs h back perm f =
        let q : Row → Bool = λ r. str_eq f (key r) in
        let perm' = Permᴰ-keep q perm in
        elim (keep_key f m h back) [
          | inl (e, found) ↦ get-fill f [] rs ∙ rw (Permᴰ-nil perm' e, found) refl
          | inr (r, e, found) ↦ get-fill f [] rs ∙ rw (Permᴰ-single r perm' e, found) refl
        ]

more-fresh {ℓ} :
    {V : Type ℓ} (sqlite : Database) (r : Row) (k : Bytes)
    → row_key sqlite r ≡ k
    → (m : Dict V) (base : List Row) → has_key k m ≡ false
    → All (λ p. keep (λ r'. str_eq (row_key sqlite r') p.0) base ≡ []) m
    → All (λ p. keep (λ r'. str_eq (row_key sqlite r') p.0) (base ++ r ∷ []) ≡ []) m
unfolding has_key
more-fresh sqlite r k e [] base h fresh = tt
more-fresh sqlite r k e (p ∷ m) base h fresh = (
  rw
      (
        keep-append (λ r'. str_eq (row_key sqlite r') p.0) base (r ∷ []),
        fresh.0,
        e,
        or-left (str_eq k p.0) (has_key k m) h,
      )
      refl,
  more-fresh sqlite r k e m base (or-right (str_eq k p.0) (has_key k m) h) fresh.1,
)

-- The rows of a map with distinct keys are new one after the other.
pub AreNew-keyed {ℓ} :
    {V : Type ℓ} (sqlite : Database) (t : Table) (row : Bytes × V → Row)
    → ((r : Row) (rs : List Row)
        → keep (λ r'. str_eq (key_of sqlite.as_text r') (key_of sqlite.as_text r)) rs ≡ []
        → IsNew sqlite.as_text t r rs)
    → (m : Dict V) (base : List Row) → distinct_keys m ≡ true
    → All (λ p. row_key sqlite (row p) ≡ p.0) m
    → All (λ p. keep (λ r. str_eq (row_key sqlite r) p.0) base ≡ []) m
    → AreNew sqlite t (map row m) base
AreNew-keyed sqlite t row keyed [] base h keys fresh = tt
AreNew-keyed sqlite t row keyed (p ∷ m) base h keys fresh = (
  keyed (row p) base (rw keys.0 fresh.0),
  AreNew-keyed sqlite t row keyed m (base ++ row p ∷ []) (and-right _ _ h) keys.1
      (more-fresh sqlite (row p) p.0 keys.0 m base (not-false _ (and-left _ _ h)) fresh.1),
)
