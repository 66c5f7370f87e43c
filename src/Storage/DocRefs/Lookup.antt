-- ===== src/Storage/DocRefs/Lookup.antt =====
-- The reverse lookup of the reference graph is the converse of the forward one.
use gogol.Prelude.{
  ◌↔◌, ◌&&◌, ◌++◌, List, ap, sym, ◌∙◌, ◌≡◌, refl, true, false, inl, inr, Bool-cases, [], ◌∷◌, arith,
}
use gogol.Text.{Bytes, str_eq, str_eq_iff}
use gogol.Dict.{get, has_key, distinct_keys}
use gogol.Storage.DocRefs.{
  RefKind, local, external, DocRefEdge, is_local, DocRefGraph, references_of, referenced_by,
  refers_to, has_path,
}

not-has_path_of_absent :
    (refs : DocRefGraph) (source target : Bytes)
    → has_key source refs ≡ false
    → has_path source (referenced_by refs target) ≡ false
unfolding referenced_by has_path has_key
not-has_path_of_absent [] source target h = refl
not-has_path_of_absent ((s, edges) ∷ refs) source target h =
    ground (arith, not-has_path_of_absent refs source target)

has_path-refers_to :
    (refs : DocRefGraph) (source target : Bytes)
    → distinct_keys refs ≡ true
    → has_path source (referenced_by refs target) ≡ refers_to target (references_of refs source)
unfolding referenced_by references_of get has_path
has_path-refers_to [] source target distinct = unfold refers_to in refl
has_path-refers_to ((s, edges) ∷ refs) source target distinct =
    elim (Bool-cases (str_eq source s)) [
      | inl same ↦
          let e : source ≡ s = (str_eq_iff source s).0 same in
          let absent : has_key source refs ≡ false = rw e (ground arith) in
          ground (arith, not-has_path_of_absent refs source target absent)
      | inr other ↦ ground (arith, has_path-refers_to refs source target (ground arith))
    ]

-- An edge of the list, by what stands around it, is a local one to the target.
abbrev pub HasLocalEdge : Bytes → List DocRefEdge → Type 0
HasLocalEdge target edges =
    (before : List DocRefEdge) × (e : DocRefEdge) × (after : List DocRefEdge) × (edges
      ≡ before ++ e ∷ after)
    × (e.kind ≡ local)
    × (e.target ≡ target)

is_local-eq : (k : RefKind) → is_local k ≡ true → k ≡ local
is_local-eq local h = refl
is_local-eq external h = cc

refers_to-found :
    (target : Bytes) (edges : List DocRefEdge)
    → refers_to target edges ≡ true
    → HasLocalEdge target edges
unfolding refers_to
refers_to-found target [] h = cc
refers_to-found target (e ∷ edges) h =
    elim (Bool-cases (is_local e.kind && str_eq e.target target)) [
      | inl hit ↦ (
        [],
        e,
        edges,
        refl,
        is_local-eq e.kind (ground (arith, hit)),
        (str_eq_iff e.target target).0 (ground (arith, hit)),
      )
      | inr miss ↦
          let (before, f, after, split, kind, same) =
            refers_to-found target edges (ground (arith, h, miss)) in
          (e ∷ before, f, after, ap (◌∷◌ e) split, kind, same)
    ]

refers_to-append :
    (target : Bytes) (before : List DocRefEdge) (e : DocRefEdge) (after : List DocRefEdge)
    → e.kind ≡ local
    → e.target ≡ target
    → refers_to target (before ++ e ∷ after) ≡ true
unfolding refers_to
refers_to-append target [] e after kind same = rw (kind, (str_eq_iff e.target target).1 same) refl
refers_to-append target (f ∷ before) e after kind same =
    ground (arith, refers_to-append target before e after kind same)

-- In a graph with distinct keys, a file is in the result of referenced_by exactly if among its own
-- references, as references_of gives them, there is one that is local with the target as its path.
pub has_path-referenced_by :
    (refs : DocRefGraph) (source target : Bytes)
    → distinct_keys refs ≡ true
    → (has_path source (referenced_by refs target) ≡ true)
      ↔ HasLocalEdge target (references_of refs source)
has_path-referenced_by refs source target distinct =
    let same = has_path-refers_to refs source target distinct in
    (
      λ h. refers_to-found target (references_of refs source) (sym same ∙ h),
      λ (found : HasLocalEdge target (references_of refs source)).
          let (before, e, after, split, kind, to) = found in
          same ∙ ap (refers_to target) split ∙ refers_to-append target before e after kind to,
    )
