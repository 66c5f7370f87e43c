-- ===== src/Storage/Sqlite/Rows.antt =====
-- What the statements of a save leave in the rows of each table, and what a SELECT finds there.
use gogol.Prelude.{
  ◌≡◌, refl, sym, ap, ap₂, ◌∙◌, Bool, true, false, not, List, [], ◌∷◌, ◌++◌, map, append-nil,
  append_assoc, if◌then◌else◌, keep, Bool-cases, inl, inr, subst,
}
use gogol.Text.{str_eq, str_eq_iff}
use gogol.Storage.Sqlite.Kept.{keep-append, keep-none, keep-same, keep-map, not-false, not-true}
use gogol.Storage.Sqlite.{
  Table, same_table, Row, IsNew, Database, EdgeKind, column, kind_name, insert_all, is_kind,
  delete_kind,
}

same_table_refl : (t : Table) → same_table t t ≡ true
unfolding same_table
same_table_refl Table.entries = refl
same_table_refl Table.notes = refl
same_table_refl Table.glossary = refl
same_table_refl Table.edges = refl
same_table_refl Table.exports = refl
same_table_refl Table.metrics = refl
same_table_refl Table.meta = refl

abbrev pub same_kind : EdgeKind → EdgeKind → Bool
same_kind EdgeKind.call EdgeKind.call = true
same_kind EdgeKind.import EdgeKind.import = true
same_kind EdgeKind.docref EdgeKind.docref = true
same_kind EdgeKind.type EdgeKind.type = true
same_kind _ _ = false

kind_name-same : (k k' : EdgeKind) → str_eq (kind_name k) (kind_name k') ≡ same_kind k k'
unfolding str_eq
kind_name-same EdgeKind.call EdgeKind.call = refl
kind_name-same EdgeKind.call EdgeKind.import = refl
kind_name-same EdgeKind.call EdgeKind.docref = refl
kind_name-same EdgeKind.call EdgeKind.type = refl
kind_name-same EdgeKind.import EdgeKind.call = refl
kind_name-same EdgeKind.import EdgeKind.import = refl
kind_name-same EdgeKind.import EdgeKind.docref = refl
kind_name-same EdgeKind.import EdgeKind.type = refl
kind_name-same EdgeKind.docref EdgeKind.call = refl
kind_name-same EdgeKind.docref EdgeKind.import = refl
kind_name-same EdgeKind.docref EdgeKind.docref = refl
kind_name-same EdgeKind.docref EdgeKind.type = refl
kind_name-same EdgeKind.type EdgeKind.call = refl
kind_name-same EdgeKind.type EdgeKind.import = refl
kind_name-same EdgeKind.type EdgeKind.docref = refl
kind_name-same EdgeKind.type EdgeKind.type = refl

same_kind-eq : (k k' : EdgeKind) → same_kind k k' ≡ true → k ≡ k'
same_kind-eq EdgeKind.call EdgeKind.call e = refl
same_kind-eq EdgeKind.import EdgeKind.import e = refl
same_kind-eq EdgeKind.docref EdgeKind.docref e = refl
same_kind-eq EdgeKind.type EdgeKind.type e = refl
same_kind-eq _ _ e = cc

true-false : true ≡ false → ⊥
true-false e = cc

module _ (sqlite : Database) where
  open sqlite use {Db, rows, as_text, insert, delete, select}

  -- Rows that are new one after the other.
  abbrev pub AreNew : Table → List Row → List Row → Type 0
  AreNew t [] rs = Unit
  AreNew t (row ∷ more) rs = IsNew as_text t row rs × AreNew t more (rs ++ row ∷ [])

  pub insert_all-rows {ℓ} :
      {A : Type ℓ} (t : Table) (row : A → Row) (xs : List A) (db : Db)
      → AreNew t (map row xs) (rows db t)
      → (u : Table)
      → rows (insert_all sqlite t row xs db) u
        ≡ (if same_table t u then rows db u ++ map row xs else rows db u)
  unfolding insert_all
  insert_all-rows t row [] db h u = elim (Bool-cases (same_table t u)) [
    | inl e ↦ rw e (sym (append-nil _))
    | inr e ↦ rw e refl
  ]
  insert_all-rows t row (x ∷ xs) db h u =
      let here : rows (insert t (row x) db) t ≡ rows db t ++ row x ∷ [] =
        sqlite.insert_rows t (row x) db h.0 t ∙ rw (same_table_refl t) refl in
      let rest =
        insert_all-rows t row xs (insert t (row x) db)
          (subst (AreNew t (map row xs)) (sym here) h.1) u in
      rest ∙ (elim (Bool-cases (same_table t u)) [
        | inl e ↦
            rw (e, sqlite.insert_rows t (row x) db h.0 u)
              (rw e (append_assoc (rows db u) (row x ∷ []) (map row xs)))
        | inr e ↦ rw (e, sqlite.insert_rows t (row x) db h.0 u) (rw e refl)
      ])

  -- A table without a key takes any rows.
  pub AreNew-keyless :
      (t : Table)
      → ((row : Row) (rs : List Row) → IsNew as_text t row rs)
      → (more rs : List Row) → AreNew t more rs
  AreNew-keyless t h [] rs = tt
  AreNew-keyless t h (row ∷ more) rs = (h row rs, AreNew-keyless t h more (rs ++ row ∷ []))

  exclusive :
      (k k' : EdgeKind)
      → same_kind k k' ≡ false
      → (r : Row) → is_kind sqlite k' r ≡ true
      → is_kind sqlite k r ≡ false
  unfolding is_kind
  exclusive k k' e r h = elim (Bool-cases (str_eq (as_text (column 0 r)) (kind_name k))) [
    | inl hit ↦
        let names : kind_name k ≡ kind_name k' =
          sym ((str_eq_iff _ _).0 hit) ∙ (str_eq_iff _ _).0 h in
        absurd (true-false (sym ((str_eq_iff _ _).1 names) ∙ kind_name-same k k' ∙ e))
    | inr miss ↦ miss
  ]

  -- The edges of one kind replaced by new ones: the kind holds those, the other kinds what they
  -- held, and the other tables what they held.
  module _ {ℓ} {A : Type ℓ} (k : EdgeKind) (row : A → Row)
      (of_kind : (x : A) → as_text (column 0 (row x)) ≡ kind_name k) (xs : List A) (db : Db) where
    kind_of_row : (k' : EdgeKind) (x : A) → is_kind sqlite k' (row x) ≡ same_kind k k'
    unfolding is_kind
    kind_of_row k' x = rw (of_kind x) (kind_name-same k k')

    edges_rows :
        rows (insert_all sqlite Table.edges row xs (delete_kind sqlite k db)) Table.edges
        ≡ keep (λ r. not (is_kind sqlite k r)) (rows db Table.edges) ++ map row xs
    unfolding delete_kind same_table
    edges_rows =
        insert_all-rows Table.edges row xs (delete_kind sqlite k db)
          (AreNew-keyless Table.edges (λ r rs. tt) (map row xs) _) Table.edges
        ∙ ap (λ rs. rs ++ map row xs) (sqlite.delete_rows Table.edges (is_kind sqlite k) db _)

    pub kind_rows :
        (k' : EdgeKind)
        → keep
            (is_kind sqlite k')
            (rows (insert_all sqlite Table.edges row xs (delete_kind sqlite k db)) Table.edges)
          ≡ (if same_kind k k' then map row xs else keep (is_kind sqlite k') (rows db Table.edges))
    kind_rows k' = elim (Bool-cases (same_kind k k')) [
      | inl e ↦
          rw (e, edges_rows, keep-append (is_kind sqlite k'))
            (ap₂ ◌++◌
              (keep-none (is_kind sqlite k') (λ r. not (is_kind sqlite k r))
                (λ r h. rw (sym (same_kind-eq k k' e)) (not-false _ h)) (rows db Table.edges))
              (keep-map (is_kind sqlite k') row true (λ x. kind_of_row k' x ∙ e) xs))
      | inr e ↦
          rw (e, edges_rows, keep-append (is_kind sqlite k'))
            (ap₂ ◌++◌
                (keep-same (is_kind sqlite k') (λ r. not (is_kind sqlite k r))
                  (λ r h. not-true _ (exclusive k k' e r h)) (rows db Table.edges))
                (keep-map (is_kind sqlite k') row false (λ x. kind_of_row k' x ∙ e) xs)
              ∙ append-nil _)
    ]

    pub other_rows :
        (u : Table)
        → same_table Table.edges u ≡ false
        → rows (insert_all sqlite Table.edges row xs (delete_kind sqlite k db)) u ≡ rows db u
    unfolding delete_kind
    other_rows u e =
        insert_all-rows Table.edges row xs (delete_kind sqlite k db)
          (AreNew-keyless Table.edges (λ r rs. tt) (map row xs) _) u
        ∙ rw e (sqlite.delete_rows Table.edges (is_kind sqlite k) db u ∙ rw e refl)
