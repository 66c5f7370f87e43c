-- ===== src/Loc/Display.antt =====
-- The comment over `format_loc`: a displayed location round-trips into `get <type> <index> <path>`.
use mathlib.Core.Option
use gogol.Prelude.{
  ℕ, suc, ◌^◌, ◌<◌, ◌≡◌, refl, sym, ap, ap₂, ◌∙◌, ◌⊎◌, inl, inr, true, true, Option, none, some, [],
  ◌∷◌, ◌++◌, ◌==◌, take, drop, take-length_append, append_assoc, append-nil, lt→ltb,
}
use gogol.Text.{Bytes, index_where, has_none, index_where-append}
use gogol.Loc.{
  EntryType, doc, note, term, parse_entry_type, entry_type_str, split_path_line, doc_suffix,
  format_loc,
}
use gogol.Loc.Decimal.{to_string, to_string-digit, to_string-ne-nil}
use gogol.Loc.RoundTrip.{
  HasNoLine, IsSplit, split_path_line-IsSplit, drop-behind_suc, parse_entry_type_iff,
  split_path_line-digits, atoi_u32-to_string,
}

-- The first word of a text, up to a space, and what follows the space.
word : Bytes → Bytes × Bytes
word s = elim (index_where (λ x. x == b' ') s) [
  | none ↦ (s, [])
  | some k ↦ (take k s, drop (suc k) s)
]

word_lem : (w r : Bytes) → has_none (λ x. x == b' ') w ≡ true → word (w ++ (b' ' ∷ r)) ≡ (w, r)
unfolding word
word_lem w r h =
    rw (index_where-append (λ x. x == b' ') w b' ' r h refl, word, take-length_append w (b' ' ∷ r))
      (ap (λ d. (w, d)) (drop-behind_suc w b' ' r))

-- The path and the line that a `get` command of this type takes from its last argument.
argument : EntryType → Bytes → Bytes × ℕ
argument doc arg = split_path_line arg
argument note arg = (arg, 0)
argument term arg = (arg, 0)

-- `get <type> <index> <path>` reads the words of a displayed location.
pub read_loc : Bytes → Option (EntryType × Bytes × (Bytes × ℕ))
unfolding word argument
read_loc s =
    let (token, rest) = word s in
    let (index, arg) = word rest in
    Option.map (λ type. (type, index, argument type arg)) (parse_entry_type token)

-- A doc has a line, or a path that does not end as one with a line does; a note or a term has none.
abbrev pub IsShown : EntryType → Bytes → ℕ → Type 0
IsShown doc path line = (line < 2 ^ 32) × ((0 < line) ⊎ ((line ≡ 0) × HasNoLine path))
IsShown note path line = line ≡ 0
IsShown term path line = line ≡ 0

read_loc-words :
    (w index arg : Bytes)
    → has_none (λ x. x == b' ') w ≡ true
    → has_none (λ x. x == b' ') index ≡ true
    → read_loc (w ++ (b' ' ∷ (index ++ (b' ' ∷ arg))))
      ≡ Option.map (λ type. (type, index, argument type arg)) (parse_entry_type w)
unfolding read_loc
read_loc-words w index arg hw hi = rw (word_lem w (index ++ (b' ' ∷ arg)) hw, word_lem index arg hi)

doc_suffix_bare : (line : ℕ) → 0 < line → doc_suffix line [] ≡ b':' ∷ to_string line
unfolding doc_suffix
doc_suffix_bare line pos = rw (lt→ltb 0 line pos) (append-nil _)

doc_suffix_zero : doc_suffix 0 [] ≡ []
unfolding doc_suffix
doc_suffix_zero = refl

whole : (path : Bytes) (r : Bytes × ℕ) → IsSplit path r → HasNoLine path → r ≡ (path, 0)
whole path (p, line) (inl (same, zero_line, _)) h = ap₂ (λ q n. (q, n)) same zero_line
whole path (p, line) (inr (ds, split, digits, some_left, _)) h =
    let none_left = h p ds split digits in cc

format_loc-words :
    (type : EntryType) (index path : Bytes) (line : ℕ)
    → IsShown type path line
    → (arg : Bytes) × (format_loc type index path line []
        ≡ entry_type_str type ++ (b' ' ∷ (index ++ (b' ' ∷ arg))))
      × (argument type arg ≡ (path, line))
unfolding format_loc argument
format_loc-words doc index path line (small, inr (zero_line, plain)) = (
  path,
  simp (zero_line, doc_suffix_zero, append-nil, append_assoc),
  whole path (split_path_line path) (split_path_line-IsSplit path) plain
      ∙ ap (λ n. (path, n)) (sym zero_line),
)
format_loc-words doc index path line (small, inl pos) = (
  path ++ (b':' ∷ to_string line),
  simp (doc_suffix_bare line pos, append_assoc),
  split_path_line-digits path (to_string line) (to_string-digit line) (to_string-ne-nil line)
      ∙ ap (λ n. (path, n)) (atoi_u32-to_string line small),
)
format_loc-words note index path line e = (path, refl, ap (λ n. (path, n)) (sym e))
format_loc-words term index path line e = (path, refl, ap (λ n. (path, n)) (sym e))

token-no_space : (type : EntryType) → has_none (λ x. x == b' ') (entry_type_str type) ≡ true
unfolding entry_type_str
token-no_space doc = refl
token-no_space note = refl
token-no_space term = refl

-- For an index name with no space, a displayed location with no chunk reads back as what it shows: a
-- doc with a line, a doc with no line whose path does not end in a colon and digits, a note or a term.
pub read_loc-format_loc :
    (type : EntryType) (index path : Bytes) (line : ℕ)
    → has_none (λ x. x == b' ') index ≡ true
    → IsShown type path line
    → read_loc (format_loc type index path line []) ≡ some (type, index, (path, line))
read_loc-format_loc type index path line h shown =
    let (arg, words, taken) = format_loc-words type index path line shown in
    rw words (
      read_loc-words (entry_type_str type) index arg (token-no_space type) h
      ∙ ap (Option.map (λ t. (t, index, argument t arg)))
          ((parse_entry_type_iff (entry_type_str type) type).1 refl)
      ∙ ap (λ a. some (type, index, a)) taken)
