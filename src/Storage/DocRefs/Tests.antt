-- ===== src/Storage/DocRefs/Tests.antt =====
-- Links of a small project.
use gogol.Prelude.{◌↔◌, true, ◌≡◌, refl, some, [], ◌∷◌}
use gogol.Text.{codes, str_eq, find, rfind, index_where, last_where}
use gogol.Text.Segments.{join, join_behind}
use gogol.Dict.{has_key}
use gogol.Storage.DocRefs.{
  DocRefGraph, DocRefEdge, local, references_of, referenced_by, pop_back, push_segment,
  segment_loop, normalize_path, dirname_of, starts_with, contains, has_path, strip_anchor, locate,
  resolve_doc_ref,
}
use gogol.Storage.DocRefs.Normal.{IsNormal, normalize_path-IsNormal}
use gogol.Storage.DocRefs.Resolve.{IsKept, resolve_doc_ref-IsKept, normalize-locate}
use gogol.Storage.DocRefs.Lookup.{HasLocalEdge, has_path-referenced_by}

normalize_path_test : normalize_path (codes "a//./b/../../../c") ≡ codes "c"
unfolding normalize_path segment_loop push_segment pop_back find index_where str_eq join join_behind
normalize_path_test = refl

abbrev orders_link : DocRefEdge
orders_link = record { kind = local; target = codes "b/y.md"; text = codes "Y" }

resolve_test :
    resolve_doc_ref (codes "a/x.md") (codes "../b/y.md#top") (codes "Y") (codes "b/y.md" ∷ [])
    ≡ some orders_link
unfolding resolve_doc_ref strip_anchor contains starts_with has_path locate dirname_of
    normalize_path segment_loop push_segment pop_back find rfind index_where last_where str_eq join
    join_behind
resolve_test = refl

resolve_doc_ref-IsKept_example :
    IsKept (codes "../b/y.md#top") (codes "Y") (codes "b/y.md" ∷ []) orders_link
resolve_doc_ref-IsKept_example =
    resolve_doc_ref-IsKept (codes "a/x.md") (codes "../b/y.md#top") (codes "Y")
      (codes "b/y.md" ∷ []) orders_link resolve_test

normalize_path-IsNormal_example : IsNormal (normalize_path (codes "../a"))
normalize_path-IsNormal_example = normalize_path-IsNormal (codes "../a")

-- Three levels up from two directories, and down again.
normalize-locate_example :
    normalize_path (locate (codes "a/b/x.md") (codes "../../.././/y/z.md")) ≡ codes "y/z.md"
unfolding join join_behind str_eq
normalize-locate_example =
    normalize-locate (codes "a") (codes "b" ∷ []) (codes "x.md") 3
      (codes "." ∷ [] ∷ codes "y" ∷ codes "z.md" ∷ []) b'.' (codes "./../.././/y/z.md")
      ((refl, refl, refl, refl), ((refl, refl, refl, refl), tt)) refl refl
      ((refl, refl), ((refl, refl), ((refl, refl), ((refl, refl), tt)))) refl

abbrev two_documents : DocRefGraph
two_documents = (codes "a/x.md", orders_link ∷ []) ∷ (codes "b/y.md", []) ∷ []

has_path-referenced_by_example :
    (has_path (codes "a/x.md") (referenced_by two_documents (codes "b/y.md")) ≡ true)
    ↔ HasLocalEdge (codes "b/y.md") (references_of two_documents (codes "a/x.md"))
unfolding has_key str_eq
has_path-referenced_by_example =
    has_path-referenced_by two_documents (codes "a/x.md") (codes "b/y.md") refl
