-- ===== src/Config/Keys/RoundTrip.antt =====
-- Keys that are written in hex are read back.
use gogol.Prelude.{
  ℕ, ◌/◌, ◌%◌, ◌<◌, ◌≡◌, refl, ap, ◌∙◌, Bool, true, false, not, ◌&&◌, ◌||◌, some, List, [], ◌∷◌,
  ◌++◌, foldl, arith, ◌==◌, if◌then◌else◌, length, all, All, all-append, drop-length_cons,
  take-length_append,
}
use gogol.Text.{Bytes, codes, str_eq, index_where-append, has_none}
use gogol.Text.Lines.{getlines, getlines-line}
use gogol.Dict.{Dict, put}
use gogol.Config.{trim, trim_start, trim_tail, is_skipped, is_header, last_byte, key_value}
use gogol.Config.Keys.Hex.{hex_digit, to_hex, AreBytes, hex_to_bytes-to_hex}
use gogol.Config.Keys.{KeyReading, add_key, keys_line, load_keys}

-- No blank, no separator and no newline.
abbrev pub is_plain : ℕ → Bool
is_plain c = not (c == b' ' || (c == b'\t' || (c == b'\r' || (c == b'\n' || c == b'='))))

-- A name as it can stand in the file.
abbrev pub is_key_name : Bytes → Bool
is_key_name [] = false
is_key_name (c ∷ s) = not (c == b'#') && (not (c == b'[') && all is_plain (c ∷ s))

abbrev pub line_of : Bytes × Bytes → Bytes
line_of (name, key) = name ++ (b'=' ∷ to_hex key)

hex_digit-is_plain : (n : ℕ) → n < 16 → is_plain (hex_digit n) ≡ true
unfolding hex_digit
hex_digit-is_plain n h = ground arith

to_hex-is_plain : (s : Bytes) → AreBytes s → all is_plain (to_hex s) ≡ true
unfolding to_hex
to_hex-is_plain [] h = refl
to_hex-is_plain (b ∷ s) h =
    rw (hex_digit-is_plain (b / 16) (omega (arith, h.0)), hex_digit-is_plain (b % 16) (omega arith))
      (to_hex-is_plain s h.1)

abbrev is_solid : ℕ → Bool
is_solid c = not (c == b' ' || (c == b'\t' || c == b'\r'))

trim_tail-solid : (s : Bytes) → all is_solid s ≡ true → trim_tail s ≡ s
unfolding trim_tail
trim_tail-solid [] h = refl
trim_tail-solid (c ∷ s) h = ground (arith, trim_tail-solid s)

trim-solid : (s : Bytes) → all is_solid s ≡ true → trim s ≡ s
unfolding trim trim_start
trim-solid [] h = unfold trim_tail in refl
trim-solid (c ∷ s) h = ground (arith, trim_tail-solid (c ∷ s))

plain-solid : (s : Bytes) → all is_plain s ≡ true → all is_solid s ≡ true
plain-solid [] h = refl
plain-solid (c ∷ s) h = ground (arith, plain-solid s)

plain-no_equals : (s : Bytes) → all is_plain s ≡ true → has_none (λ x. x == b'=') s ≡ true
plain-no_equals [] h = refl
plain-no_equals (c ∷ s) h = ground (arith, plain-no_equals s)

plain-one_line : (s : Bytes) → all is_plain s ≡ true → has_none (λ x. x == b'\n') s ≡ true
plain-one_line [] h = refl
plain-one_line (c ∷ s) h = ground (arith, plain-one_line s)

-- A key with the name it is kept under.
abbrev pub IsKey : Bytes × Bytes → Type 0
IsKey (name, key) = (is_key_name name ≡ true) × AreBytes key × (length key ≡ 32)

key_name-is_plain : (name : Bytes) → is_key_name name ≡ true → all is_plain name ≡ true
key_name-is_plain [] h = refl
key_name-is_plain (c ∷ s) h = ground arith

line_of-solid : (name key : Bytes) → IsKey (name, key) → all is_solid (line_of (name, key)) ≡ true
line_of-solid name key (named, bytes, _) =
    rw
      (
        all-append is_solid name (b'=' ∷ to_hex key),
        plain-solid name (key_name-is_plain name named),
      )
      (plain-solid (to_hex key) (to_hex-is_plain key bytes))

line_of-one_line :
    (name key : Bytes) → IsKey (name, key) → has_none (λ x. x == b'\n') (line_of (name, key)) ≡ true
line_of-one_line name key (named, bytes, _) =
    rw
      (
        all-append (λ x. if x == b'\n' then false else true) name (b'=' ∷ to_hex key),
        plain-one_line name (key_name-is_plain name named),
      )
      (plain-one_line (to_hex key) (to_hex-is_plain key bytes))

key_value-line_of :
    (name key : Bytes)
    → IsKey (name, key)
    → key_value (line_of (name, key)) ≡ some (name, to_hex key)
unfolding key_value
key_value-line_of name key (named, bytes, _) =
    let plain = key_name-is_plain name named in
    rw
      (
        index_where-append (λ c. c == b'=') name b'=' (to_hex key) (plain-no_equals name plain)
            refl,
        key_value,
      )
      (rw
        (
          take-length_append name (b'=' ∷ to_hex key),
          drop-length_cons name b'=' (to_hex key),
          trim-solid name (plain-solid name plain),
          trim-solid (to_hex key) (plain-solid (to_hex key) (to_hex-is_plain key bytes)),
        )
        refl)

keys_line-line_of :
    (keys : Dict Bytes) (name key : Bytes)
    → IsKey (name, key)
    → keys_line (record { in_keys = true; keys = keys }) (line_of (name, key))
      ≡ record { in_keys = true; keys = put name key keys }
unfolding keys_line add_key
keys_line-line_of keys [] key is = cc
keys_line-line_of keys (c ∷ name) key is =
    let skip : is_skipped (line_of (c ∷ name, key)) ≡ false =
      unfold is_skipped in ground (arith, is.0) in
    let no_header : is_header (line_of (c ∷ name, key)) ≡ false =
      unfold is_header in ground (arith, is.0) in
    rw
      (
        trim-solid (line_of (c ∷ name, key)) (line_of-solid (c ∷ name) key is),
        skip,
        no_header,
        key_value-line_of (c ∷ name) key is,
        hex_to_bytes-to_hex key is.1,
        is.2,
      )
      refl

unfoldable pub key_lines : List (Bytes × Bytes) → Bytes
key_lines [] = []
key_lines (e ∷ keys) = line_of e ++ (b'\n' ∷ key_lines keys)

-- The section of the keys, as it is written in the file.
unfoldable pub print_keys : List (Bytes × Bytes) → Bytes
print_keys keys = codes "[keys]" ++ (b'\n' ∷ key_lines keys)

key_lines-read :
    (keys : Dict Bytes) (es : List (Bytes × Bytes))
    → All IsKey es
    → foldl keys_line (record { in_keys = true; keys = keys }) (getlines (key_lines es))
      ≡ record { in_keys = true; keys = foldl (λ m e. put e.0 e.1 m) keys es }
unfolding key_lines
key_lines-read keys [] h = unfold getlines in refl
key_lines-read keys ((name, key) ∷ es) h =
    ap (foldl keys_line (record { in_keys = true; keys = keys }))
      (getlines-line (line_of (name, key)) (key_lines es) (line_of-one_line name key h.0))
    ∙ ap (λ s. foldl keys_line s (getlines (key_lines es))) (keys_line-line_of keys name key h.0)
    ∙ key_lines-read (put name key keys) es h.1

abbrev pub no_keys : KeyReading
no_keys = record { in_keys = false; keys = [] }

keys_line-header : keys_line no_keys (codes "[keys]") ≡ record { in_keys = true; keys = [] }
unfolding keys_line trim trim_start trim_tail is_skipped is_header last_byte str_eq
keys_line-header = refl

-- Keys of 32 bytes that are written in hex into the section [keys], one to a line, under names of
-- plain characters, are read back by load_keys as they are, a later line for the same name taking
-- the place of an earlier one.
pub load_keys-print_keys :
    (es : List (Bytes × Bytes))
    → All IsKey es
    → load_keys (some (print_keys es)) ≡ foldl (λ m e. put e.0 e.1 m) [] es
unfolding load_keys print_keys
load_keys-print_keys es h =
    ap (λ ls. (foldl keys_line no_keys ls).keys)
      (getlines-line (codes "[keys]") (key_lines es) refl)
    ∙ ap (λ s. (foldl keys_line s (getlines (key_lines es))).keys) keys_line-header
    ∙ ap (λ s. s.keys) (key_lines-read [] es h)
