-- ===== src/Config/Chunkers/Valid.antt =====
-- Every chunker that is read can be used.
use gogol.Prelude.{
  ◌≡◌, Bool, true, false, ◌||◌, Option, none, some, inl, inr, Bool-cases, List, [], ◌∷◌, foldl,
  arith, ◌==◌, is_nil, All, All-append, if-keeps, foldl-keeps,
}
use gogol.Text.{Bytes, codes, str_eq}
use gogol.Text.Lines.{getlines}
use gogol.Config.{trim, is_skipped, is_header, key_value, comma_pieces}
use gogol.Config.Indexes.{with_dot}
use gogol.Config.Chunkers.{
  ChunkerDef, chunker_ext, add_chunker, ChunkerReading, chunkers_line, load_chunker_config,
}

abbrev pub has_dot : Bytes → Bool
has_dot [] = false
has_dot (c ∷ s) = c == b'.'

-- A chunker with a pattern and at least one extension, each with its dot.
abbrev pub IsUsable : ChunkerDef → Type 0
IsUsable d =
    (is_nil d.pattern ≡ false)
    × (is_nil d.extensions ≡ false)
    × All (λ e. has_dot e ≡ true) d.extensions

with_dot-has_dot : (e : Bytes) → is_nil e ≡ false → has_dot (with_dot e) ≡ true
unfolding with_dot
with_dot-has_dot [] h = cc
with_dot-has_dot (c ∷ s) h = ground arith

chunker_ext-has_dot :
    (exts : List Bytes) (piece : Bytes)
    → All (λ e. has_dot e ≡ true) exts
    → All (λ e. has_dot e ≡ true) (chunker_ext exts piece)
unfolding chunker_ext
chunker_ext-has_dot exts piece h = elim (Bool-cases (is_nil (trim piece))) [
  | inl empty ↦ rw empty h
  | inr full ↦ rw full (
      All-append (λ e. has_dot e ≡ true) exts (with_dot (trim piece) ∷ []) h
        (with_dot-has_dot (trim piece) full, tt))
]

add_chunker-IsUsable :
    (found : Option (Bytes × Bytes)) (defs : List ChunkerDef)
    → All IsUsable defs
    → All IsUsable (add_chunker found defs)
unfolding add_chunker
add_chunker-IsUsable none defs h = h
add_chunker-IsUsable (some (exts_str, pattern)) defs h =
    let exts = foldl chunker_ext [] (comma_pieces exts_str) in
    elim (Bool-cases (is_nil exts_str || is_nil pattern)) [
      | inl unset ↦ rw unset h
      | inr set ↦ elim (Bool-cases (is_nil exts)) [
        | inl none_left ↦ rw (set, none_left) h
        | inr full ↦
            rw (set, full)
              (All-append IsUsable defs _ h (
                (
                  ground arith,
                  full,
                  foldl-keeps (All (λ e. has_dot e ≡ true)) chunker_ext chunker_ext-has_dot []
                      (comma_pieces exts_str) tt,
                ),
                tt,
              ))
      ]
    ]

AreUsable : ChunkerReading → Type 0
AreUsable s = All IsUsable s.defs

chunkers_line-AreUsable :
    (s : ChunkerReading) (raw : Bytes) → AreUsable s → AreUsable (chunkers_line s raw)
unfolding chunkers_line
chunkers_line-AreUsable s raw h =
    let line = trim raw in
    let header : AreUsable (record s { in_chunkers = str_eq line (codes "[chunkers]") }) =
      unfold AreUsable in h in
    let more : AreUsable (record s { defs = add_chunker (key_value line) s.defs }) =
      unfold AreUsable in add_chunker-IsUsable (key_value line) s.defs h in
    if-keeps AreUsable (is_skipped line) h
      (if-keeps AreUsable (is_header line) header (if-keeps AreUsable s.in_chunkers more h))

-- Whatever the file holds, each chunker that is read has a pattern that is not empty and at least
-- one extension, and each of its extensions begins with a dot.
pub load_chunker_config-IsUsable : (file : Option Bytes) → All IsUsable (load_chunker_config file)
unfolding load_chunker_config AreUsable
load_chunker_config-IsUsable none = tt
load_chunker_config-IsUsable (some text) =
    foldl-keeps AreUsable chunkers_line chunkers_line-AreUsable
      (record { in_chunkers = false; defs = [] }) (getlines text) tt
