-- ===== src/Storage/DocRefs/Normal.antt =====
-- The normal form of paths that normalize_path computes.
use gogol.Prelude.{
  ℕ, zero, suc, ◌+◌, ◌-◌, ◌≤◌, ◌<◌, ◌≡◌, refl, sym, ap, ◌∙◌, true, false, inl, inr, Option-cases,
  Bool-cases, List, [], ◌∷◌, ◌++◌, arith, ◌==◌, leb, is_nil, length, drop, foldl, All, All-append,
  All-take, All-mono, append_assoc, append-nil, length-drop, drop-drop,
}
use gogol.Text.{Bytes, codes, str_eq, find, index_where, has_none}
use gogol.Text.Lines.{index_where-lt}
use gogol.Text.Segments.{split, split-found, split-unfound, split-HasNone, join, split-join}
use gogol.Storage.DocRefs.{push_segment, pop_back, segment_loop, normalize_path}

-- The loop is a fold over the segments of the path.
segment_loop-split :
    (fuel : ℕ) (path : Bytes) (start : ℕ) (stack : List Bytes)
    → start ≤ length path
    → length path < start + fuel
    → segment_loop fuel path start stack ≡ foldl push_segment stack (split b'/' (drop start path))
unfolding segment_loop find
segment_loop-split zero path start stack low high = absurd (omega arith)
segment_loop-split (suc fuel) path start stack low high =
    let inside : leb start (length path) ≡ true = ground arith in
    elim (Option-cases (index_where (λ x. x == b'/') (drop start path))) [
      | inl e ↦
          rw (inside, segment_loop)
            (rw (e, segment_loop, split-unfound b'/' (drop start path) e) refl)
      | inr (k, e) ↦
          let within : k < length path - start =
            omega (arith, index_where-lt _ (drop start path) k e, length-drop start path) in
          let shift : start + k - start ≡ k = omega arith in
          let behind : start + k + 1 ≡ start + suc k = omega arith in
          rw (inside, segment_loop)
            (rw
              (
                e,
                segment_loop,
                shift,
                split-found b'/' (drop start path) k e,
                drop-drop (suc k) start path,
                ← behind,
              )
              (segment_loop-split fuel path (start + k + 1) _ (omega arith) (omega arith)))
    ]

pub normalize_path-split :
    (path : Bytes) → normalize_path path ≡ join b'/' (foldl push_segment [] (split b'/' path))
unfolding normalize_path
normalize_path-split path =
    ap (join b'/') (segment_loop-split (length path + 1) path 0 [] (omega arith) (omega arith))

-- A segment of a normal path: a name, not one of the two that stand for directories.
abbrev pub IsName : Bytes → Type 0
IsName seg =
    (is_nil seg ≡ false)
    × (str_eq seg (codes ".") ≡ false)
    × (str_eq seg (codes "..") ≡ false)
    × (has_none (λ x. x == b'/') seg ≡ true)

push_segment-IsName :
    (stack : List Bytes) (seg : Bytes)
    → All IsName stack
    → has_none (λ x. x == b'/') seg ≡ true
    → All IsName (push_segment stack seg)
unfolding push_segment pop_back
push_segment-IsName stack seg names plain = elim (Bool-cases (is_nil seg)) [
  | inl e ↦ rw e names
  | inr a ↦ elim (Bool-cases (str_eq seg (codes "."))) [
    | inl e ↦ rw (a, e) names
    | inr b ↦ elim (Bool-cases (str_eq seg (codes ".."))) [
      | inl e ↦ elim (Bool-cases (is_nil stack)) [
        | inl s ↦ rw (a, b, e, s) names
        | inr s ↦ rw (a, b, e, s) (All-take IsName (length stack - 1) stack names)
      ]
      | inr c ↦ rw (a, b, c) (All-append IsName stack (seg ∷ []) names ((a, b, c, plain), tt))
    ]
  ]
]

fold-IsName :
    (segs stack : List Bytes)
    → All (λ seg. has_none (λ x. x == b'/') seg ≡ true) segs
    → All IsName stack
    → All IsName (foldl push_segment stack segs)
fold-IsName [] stack plain names = names
fold-IsName (seg ∷ segs) stack plain names =
    fold-IsName segs (push_segment stack seg) plain.1 (push_segment-IsName stack seg names plain.0)

-- Names are pushed as they are.
pub fold-names :
    (segs stack : List Bytes) → All IsName segs → foldl push_segment stack segs ≡ stack ++ segs
unfolding push_segment
fold-names [] stack names = sym (append-nil stack)
fold-names (seg ∷ segs) stack names =
    let (a, b, c, plain) = names.0 in
    rw (a, b, c) (fold-names segs (stack ++ seg ∷ []) names.1 ∙ append_assoc stack (seg ∷ []) segs)

-- A path in normal form is a list of names with a slash between them, the empty path for none.
pub IsNormal : Bytes → Type 0
IsNormal path = (names : List Bytes) × All IsName names × (path ≡ join b'/' names)

-- The normalized path of any input is in normal form: no segment is empty, `.` or `..`.
pub normalize_path-IsNormal : (path : Bytes) → IsNormal (normalize_path path)
unfolding IsNormal
normalize_path-IsNormal path = (
  foldl push_segment [] (split b'/' path),
  fold-IsName (split b'/' path) [] (split-HasNone b'/' path) tt,
  normalize_path-split path,
)

normalize-nil : normalize_path [] ≡ []
unfolding normalize_path segment_loop push_segment find index_where join
normalize-nil = refl

normalize-join :
    (names : List Bytes) → All IsName names → normalize_path (join b'/' names) ≡ join b'/' names
normalize-join [] all = unfold join in normalize-nil
normalize-join (x ∷ xs) all =
    normalize_path-split (join b'/' (x ∷ xs))
    ∙ ap (λ segs. join b'/' (foldl push_segment [] segs))
        (split-join b'/' x xs (All-mono (λ s n. n.3) (x ∷ xs) all))
    ∙ ap (join b'/') (fold-names (x ∷ xs) [] all)

-- A path in normal form is left as it is.
pub normalize_path_of_normal : (path : Bytes) → IsNormal path → normalize_path path ≡ path
unfolding IsNormal
normalize_path_of_normal path (names, all, e) = rw e (normalize-join names all)
