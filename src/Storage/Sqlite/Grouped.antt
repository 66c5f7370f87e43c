-- ===== src/Storage/Sqlite/Grouped.antt =====
-- Maps of lists in rows: `for (auto& [file, xs] : m) for (auto& x : xs) INSERT`, and
-- `m[file].push_back(x)` for each row of a SELECT.
use mathlib.Core.List.{Permᴰ}
use gogol.Prelude.{
  ◌≡◌, refl, sym, ap, ◌∙◌, Bool, true, false, Option, none, some, List, [], ◌∷◌, ◌++◌, map,
  append-nil, append_assoc, arith, if◌then◌else◌, keep, All, subst, Bool-cases, inl, inr,
}
use gogol.Text.{Bytes, str_eq, str_eq_iff}
use gogol.Dict.{Dict, get, put, get-put, has_key, distinct_keys}
use gogol.Storage.Sqlite.{Table, Row, Database, insert_all}
use gogol.Storage.Sqlite.Kept.{keep-append, Permᴰ-keep, Permᴰ-map, and-left, not-false}

abbrev pub list_of {ℓ} : {V : Type ℓ} → Option (List V) → List V
list_of none = []
list_of (some vs) = vs

-- What operator[] gives: the list of a key, empty for a new one.
abbrev pub at {ℓ} : {V : Type ℓ} → Bytes → Dict (List V) → List V
at file m = list_of (get file m)

-- m[file].push_back(v).
unfoldable pub push {ℓ} : {V : Type ℓ} → Bytes → V → Dict (List V) → Dict (List V)
push file v m = put file (at file m ++ v ∷ []) m

-- The loop over the rows of a SELECT.
unfoldable pub group {ℓ} :
    {V : Type ℓ} → (Row → Bytes) → (Row → V) → Dict (List V) → List Row → Dict (List V)
unfolding push
group file value m [] = m
group file value m (row ∷ rs) = group file value (push (file row) (value row) m) rs

module _ (sqlite : Database) where
  open sqlite use {Db}

  -- The two loops over a map of lists.
  unfoldable pub insert_groups {ℓ} :
      {V : Type ℓ} → Table → (Bytes → V → Row) → Dict (List V) → Db → Db
  insert_groups t row [] db = db
  insert_groups t row ((file, vs) ∷ m) db =
      insert_groups t row m (insert_all sqlite t (row file) vs db)

module _ {ℓ} {V : Type ℓ} where
  abbrev pub of_file : Bytes → Bytes × V → Bool
  of_file f p = str_eq f p.0

  abbrev pub second : Bytes × V → V
  second p = p.1

  abbrev pub tag : Bytes → V → Bytes × V
  tag file v = (file, v)

  abbrev pub flat : Dict (List V) → List (Bytes × V)
  flat [] = []
  flat ((file, vs) ∷ m) = map (tag file) vs ++ flat m

  at-push :
      (f file : Bytes) (v : V) (m : Dict (List V))
      → at f (push file v m) ≡ at f m ++ (if str_eq f file then v ∷ [] else [])
  unfolding push
  at-push f file v m = elim (Bool-cases (str_eq f file)) [
    | inl e ↦
        rw (get-put f file _ m, e) (ap (λ k. at k m ++ v ∷ []) (sym ((str_eq_iff f file).0 e)))
    | inr e ↦ rw (get-put f file _ m, e) (sym (append-nil _))
  ]

  -- The group of a file: the values of its rows, behind those that were there.
  pub at-group :
      (file : Row → Bytes) (value : Row → V) (f : Bytes) (m : Dict (List V)) (rs : List Row)
      → at f (group file value m rs) ≡ at f m ++ map value (keep (λ r. str_eq f (file r)) rs)
  unfolding group
  at-group file value f m [] = sym (append-nil _)
  at-group file value f m (row ∷ rs) = elim (Bool-cases (str_eq f (file row))) [
    | inl e ↦
        at-group file value f (push (file row) (value row) m) rs
        ∙ rw (at-push f (file row) (value row) m, e) (append_assoc (at f m) (value row ∷ []) _)
    | inr e ↦
        at-group file value f (push (file row) (value row) m) rs
        ∙ rw (at-push f (file row) (value row) m, e)
            (ap (λ s. s ++ map value (keep (λ r. str_eq f (file r)) rs)) (append-nil (at f m)))
  ]

  keep_file :
      (f file : Bytes) (vs : List V)
      → keep (of_file f) (map (tag file) vs) ≡ (if str_eq f file then map (tag file) vs else [])
  keep_file f file [] = ground arith
  keep_file f file (v ∷ vs) = ground (arith, keep_file f file vs)

  map-second : (file : Bytes) (vs : List V) → map second (map (tag file) vs) ≡ vs
  map-second file [] = refl
  map-second file (v ∷ vs) = ap (◌∷◌ v) (map-second file vs)

  keep_absent :
      (f : Bytes) (m : Dict (List V)) → has_key f m ≡ false → keep (of_file f) (flat m) ≡ []
  unfolding has_key
  keep_absent f [] h = refl
  keep_absent f ((file, vs) ∷ m) h =
      let miss : str_eq f file ≡ false = ground arith in
      let rest : has_key f m ≡ false = ground arith in
      rw (keep-append (of_file f) (map (tag file) vs) (flat m), keep_file f file vs, miss)
        (keep_absent f m rest)

  pub at-flat :
      (f : Bytes) (m : Dict (List V))
      → distinct_keys m ≡ true
      → map second (keep (of_file f) (flat m)) ≡ at f m
  unfolding get
  at-flat f [] h = refl
  at-flat f ((file, vs) ∷ m) h = elim (Bool-cases (str_eq f file)) [
    | inl e ↦
        rw (e, keep-append (of_file f) (map (tag file) vs) (flat m), keep_file f file vs, e)
          (let absent : has_key f m ≡ false =
              rw ((str_eq_iff f file).0 e) (not-false (has_key file m) (and-left _ _ h)) in
            rw (keep_absent f m absent, append-nil (map (tag file) vs)) (map-second file vs))
    | inr e ↦
        rw (e, keep-append (of_file f) (map (tag file) vs) (flat m), keep_file f file vs, e)
          (at-flat f m (ground arith))
  ]

module _ (sqlite : Database) where
  open sqlite use {Db}

  insert_all-append {ℓ} :
      {A : Type ℓ} (t : Table) (row : A → Row) (xs ys : List A) (db : Db)
      → insert_all sqlite t row (xs ++ ys) db
        ≡ insert_all sqlite t row ys (insert_all sqlite t row xs db)
  unfolding insert_all
  insert_all-append t row [] ys db = refl
  insert_all-append t row (x ∷ xs) ys db =
      insert_all-append t row xs ys (sqlite.insert t (row x) db)

  insert_all-tag {ℓ} :
      {V : Type ℓ} (t : Table) (row : Bytes → V → Row) (file : Bytes) (vs : List V) (db : Db)
      → insert_all sqlite t (row file) vs db
        ≡ insert_all sqlite t (λ (p : Bytes × V). row p.0 p.1) (map (tag file) vs) db
  unfolding insert_all
  insert_all-tag t row file [] db = refl
  insert_all-tag t row file (v ∷ vs) db =
      insert_all-tag t row file vs (sqlite.insert t (row file v) db)

  -- The two loops insert the rows of the map in the order of its files.
  pub insert_groups-flat {ℓ} :
      {V : Type ℓ} (t : Table) (row : Bytes → V → Row) (m : Dict (List V)) (db : Db)
      → insert_groups sqlite t row m db
        ≡ insert_all sqlite t (λ (p : Bytes × V). row p.0 p.1) (flat m) db
  unfolding insert_groups insert_all
  insert_groups-flat t row [] db = refl
  insert_groups-flat t row ((file, vs) ∷ m) db =
      insert_groups-flat t row m (insert_all sqlite t (row file) vs db)
      ∙ ap (insert_all sqlite t (λ p. row p.0 p.1) (flat m)) (insert_all-tag t row file vs db)
      ∙ sym (insert_all-append t (λ p. row p.0 p.1) (map (tag file) vs) (flat m) db)

module _ {ℓ} {V : Type ℓ} (file : Row → Bytes) (value : Row → V) (row : Bytes → V → Row) where
  abbrev pair_row : Bytes × V → Row
  pair_row p = row p.0 p.1

  abbrev pub IsReadBack : Bytes × V → Type ℓ
  IsReadBack p = (file (pair_row p) ≡ p.0) × (value (pair_row p) ≡ p.1)

  values_back :
      (f : Bytes) (ps : List (Bytes × V))
      → All IsReadBack ps
      → map value (keep (λ r. str_eq f (file r)) (map pair_row ps))
        ≡ map second (keep (of_file f) ps)
  values_back f [] h = refl
  values_back f (p ∷ ps) h = elim (Bool-cases (str_eq f p.0)) [
    | inl e ↦ rw (h.0.0, e, h.0.1) (ap (◌∷◌ p.1) (values_back f ps h.1))
    | inr e ↦ rw (h.0.0, e) (values_back f ps h.1)
  ]

-- The rows of a map of lists, grouped again in whatever order the SELECT gives them: every file has
-- the same values, up to their order.
pub group-flat {ℓ} :
    {V : Type ℓ} (file : Row → Bytes) (value : Row → V) (row : Bytes → V → Row) (m : Dict (List V))
    (rs : List Row)
    → distinct_keys m ≡ true
    → Permᴰ rs (map (λ (p : Bytes × V). row p.0 p.1) (flat m))
    → All (IsReadBack file value row) (flat m)
    → (f : Bytes) → Permᴰ (at f (group file value [] rs)) (at f m)
unfolding get
group-flat file value row m rs h perm back f =
    let q : Row → Bool = λ r. str_eq f (file r) in
    rw (at-group file value f [] rs) (
      subst (Permᴰ (map value (keep q rs)))
        (values_back file value row f (flat m) back ∙ at-flat f m h)
        (Permᴰ-map value (Permᴰ-keep q perm)))
