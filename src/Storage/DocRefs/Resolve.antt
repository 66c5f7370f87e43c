-- ===== src/Storage/DocRefs/Resolve.antt =====
-- What resolve_doc_ref makes of a link.
use gogol.Prelude.{
  take-take, ℕ, zero, suc, ◌-◌, ◌≡◌, ◌⊎◌, refl, sym, ap, ◌∙◌, Bool, not, ◌||◌, true, false, some,
  keep, take, length, length-take, take-all, replicate, append-nil, append_assoc, inl, inr,
  Bool-cases, List, [], ◌∷◌, ◌++◌, arith, ◌==◌, is_nil, foldl, foldl-append, All, All-mono,
  take-length_append,
}
use gogol.Text.{Bytes, codes, str_eq, rfind, last_where-append, has_none}
use gogol.Text.Segments.{HasNone, split-join, split, join, join-last, split-join_append}
use gogol.Storage.DocRefs.{
  local, external, DocRefEdge, push_segment, pop_back, normalize_path, dirname_of, contains,
  has_path, strip_anchor, locate, resolve_doc_ref,
}
use gogol.Storage.DocRefs.Normal.{
  IsName, IsNormal, normalize_path-split, normalize_path-IsNormal, fold-names,
}

-- An edge that may stand in the graph of an index: an external one keeps the link as written, a
-- local one leads to an indexed path, in normal form.
abbrev pub IsKept : Bytes → Bytes → List Bytes → DocRefEdge → Type 0
IsKept raw_target link_text valid e =
    (e.text ≡ link_text)
    × (((e.kind ≡ external) × (e.target ≡ raw_target))
        ⊎ ((e.kind ≡ local) × IsNormal e.target × (has_path e.target valid ≡ true)))

-- Whatever link is resolved, an edge that comes out is external with the target as written, or
-- local with a target that is an indexed path in normal form.
pub resolve_doc_ref-IsKept :
    (source raw text : Bytes) (valid : List Bytes) (e : DocRefEdge)
    → resolve_doc_ref source raw text valid ≡ some e
    → IsKept raw text valid e
unfolding resolve_doc_ref
resolve_doc_ref-IsKept source raw text valid e h =
    elim (Bool-cases (contains (codes "://") (strip_anchor raw))) [
      | inl a ↦
          let e' : record { kind = external; target = raw; text = text } ≡ e = ground arith in
          rw (← e') (refl, inl (refl, refl))
      | inr a ↦ elim (Bool-cases (is_nil (strip_anchor raw))) [
        | inl b ↦ absurd (ground arith)
        | inr b ↦
            elim (Bool-cases (has_path (normalize_path (locate source (strip_anchor raw))) valid)) [
              | inl c ↦
                  let e' : record {
                    kind = local;
                    target = normalize_path (locate source (strip_anchor raw));
                    text = text;
                  }
                      ≡ e =
                    ground arith in
                  rw (← e') (
                    refl,
                    inr (refl, normalize_path-IsNormal (locate source (strip_anchor raw)), c),
                  )
              | inr c ↦ absurd (ground arith)
            ]
      ]
    ]

-- dirname_of cuts off the last name.
dirname_of-join :
    (x : Bytes) (xs : List Bytes) (file : Bytes)
    → has_none (λ c. c == b'/') file ≡ true
    → dirname_of (join b'/' ((x ∷ xs) ++ file ∷ [])) ≡ join b'/' (x ∷ xs)
unfolding dirname_of rfind
dirname_of-join x xs file plain = rw (join-last b'/' x xs file) (
    rw (last_where-append (λ c. c == b'/') (join b'/' (x ∷ xs)) b'/' file plain refl, dirname_of)
      (take-length_append (join b'/' (x ∷ xs)) (b'/' ∷ file)))

join-not_nil :
    (x : Bytes) (xs : List Bytes) → is_nil x ≡ false → is_nil (join b'/' (x ∷ xs)) ≡ false
unfolding join
join-not_nil [] xs h = cc
join-not_nil (c ∷ x) xs h = refl

-- The segments of a link are pushed onto the directory of its source.
normalize-locate_fold :
    (d : Bytes) (dirs : List Bytes) (file : Bytes) (c : ℕ) (target : Bytes)
    → All IsName (d ∷ dirs)
    → has_none (λ x. x == b'/') file ≡ true
    → (c == b'/') ≡ false
    → normalize_path (locate (join b'/' ((d ∷ dirs) ++ file ∷ [])) (c ∷ target))
      ≡ join b'/' (foldl push_segment (d ∷ dirs) (split b'/' (c ∷ target)))
unfolding locate
normalize-locate_fold d dirs file c target names plain relative =
    rw (relative, dirname_of-join d dirs file plain, join-not_nil d dirs names.0.0)
      (normalize_path-split (join b'/' (d ∷ dirs) ++ (b'/' ∷ c ∷ target))
        ∙ ap (λ segs. join b'/' (foldl push_segment [] segs))
            (split-join_append b'/' d dirs (c ∷ target) (All-mono (λ s n. n.3) (d ∷ dirs) names))
        ∙ ap (join b'/') (foldl-append push_segment [] (d ∷ dirs) (split b'/' (c ∷ target)))
        ∙ ap (λ stack. join b'/' (foldl push_segment stack (split b'/' (c ∷ target))))
            (fold-names (d ∷ dirs) [] names))

-- A segment that does not go up, between slashes.
abbrev pub IsForward : Bytes → Type 0
IsForward seg = HasNone b'/' seg × (str_eq seg (codes "..") ≡ false)

-- Not empty and not `.`.
abbrev pub goes_down : Bytes → Bool
goes_down seg = not (is_nil seg || str_eq seg (codes "."))

fold-IsForward :
    (segs stack : List Bytes)
    → All IsForward segs
    → foldl push_segment stack segs ≡ stack ++ keep goes_down segs
unfolding push_segment
fold-IsForward [] stack h = sym (append-nil stack)
fold-IsForward (seg ∷ segs) stack h = elim (Bool-cases (is_nil seg || str_eq seg (codes "."))) [
  | inl stays ↦ rw stays (fold-IsForward segs stack h.1)
  | inr down ↦
      rw (down, h.0.1)
        (fold-IsForward segs (stack ++ seg ∷ []) h.1
          ∙ append_assoc stack (seg ∷ []) (keep goes_down segs))
]

push-up : (stack : List Bytes) → push_segment stack (codes "..") ≡ take (length stack - 1) stack
unfolding push_segment pop_back str_eq
push-up [] = refl
push-up (d ∷ stack) = refl

take-ups :
    (n : ℕ) (stack : List Bytes)
    → take (length (take (length stack - 1) stack) - n) (take (length stack - 1) stack)
      ≡ take (length stack - suc n) stack
take-ups n stack =
    take-take (length (take (length stack - 1) stack) - n) (length stack - 1) stack
      (omega (arith, length-take (length stack - 1) stack))
    ∙ ap (λ k. take k stack) (omega (arith, length-take (length stack - 1) stack))

fold-ups :
    (n : ℕ) (stack rest : List Bytes)
    → foldl push_segment stack (replicate n (codes "..") ++ rest)
      ≡ foldl push_segment (take (length stack - n) stack) rest
fold-ups zero stack rest =
    ap (λ s. foldl push_segment s rest) (sym (take-all (length stack - 0) stack (omega arith)))
fold-ups (suc n) stack rest =
    ap (λ s. foldl push_segment s (replicate n (codes "..") ++ rest)) (push-up stack)
    ∙ fold-ups n (take (length stack - 1) stack) rest
    ∙ ap (λ s. foldl push_segment s rest) (take-ups n stack)

ups-HasNone :
    (n : ℕ) (rest : List Bytes)
    → All IsForward rest
    → All (HasNone b'/') (replicate n (codes "..") ++ rest)
ups-HasNone zero [] h = tt
ups-HasNone zero (seg ∷ rest) h = (h.0.0, ups-HasNone zero rest h.1)
ups-HasNone (suc n) rest h = (refl, ups-HasNone n rest h)

split-segments :
    (segs : List Bytes) (c : ℕ) (target : Bytes)
    → All (HasNone b'/') segs
    → c ∷ target ≡ join b'/' segs
    → split b'/' (c ∷ target) ≡ segs
unfolding join
split-segments [] c target h e = cc
split-segments (seg ∷ segs) c target h e = rw e (split-join b'/' seg segs h)

-- A link that does not begin with a slash, from a file in a directory of the project: `n` times `..`,
-- which take off the last `n` directories, or all there are, and then segments that are none, of
-- which the empty ones and `.` are passed over and each other one goes down.
pub normalize-locate :
    (d : Bytes) (dirs : List Bytes) (file : Bytes) (n : ℕ) (rest : List Bytes) (c : ℕ)
    (target : Bytes)
    → All IsName (d ∷ dirs)
    → has_none (λ x. x == b'/') file ≡ true
    → (c == b'/') ≡ false
    → All IsForward rest
    → c ∷ target ≡ join b'/' (replicate n (codes "..") ++ rest)
    → normalize_path (locate (join b'/' ((d ∷ dirs) ++ file ∷ [])) (c ∷ target))
      ≡ join b'/' (take (length (d ∷ dirs) - n) (d ∷ dirs) ++ keep goes_down rest)
normalize-locate d dirs file n rest c target names plain relative forward made =
    let segs = replicate n (codes "..") ++ rest in
    normalize-locate_fold d dirs file c target names plain relative
    ∙ ap (λ ss. join b'/' (foldl push_segment (d ∷ dirs) ss))
        (split-segments segs c target (ups-HasNone n rest forward) made)
    ∙ ap (join b'/') (fold-ups n (d ∷ dirs) rest)
    ∙ ap (join b'/') (fold-IsForward rest (take (length (d ∷ dirs) - n) (d ∷ dirs)) forward)
