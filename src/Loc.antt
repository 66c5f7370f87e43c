-- ===== src/Loc.antt =====
-- src/core/loc.{h,cpp}: entry types, doc paths with a trailing line, and the display of locations.
-- `atoi` is that of glibc: strtol saturates at 2^63 - 1, then the value is cut to 32 bits.
mod Decimal
pub mod RoundTrip
pub mod Display
mod Tests
pub use Decimal.{to_string}
use gogol.Prelude.{
  ℕ, suc, ◌+◌, ◌-◌, ◌*◌, ◌%◌, ◌^◌, Bool, true, false, ◌&&◌, Option, none, some, List, [], ◌∷◌, ◌++◌,
  ltb, leb, if◌then◌else◌, length, take, drop, all, min, is_nil,
}
use gogol.Text.{Bytes, codes, str_eq, rfind, substr}
use Decimal.{is_digit, digits_value}

pub data EntryType : Type 0 where
  doc note term : EntryType

-- The pair of the flag and the `out` argument, as an Option.
unfoldable pub parse_entry_type : Bytes → Option EntryType
parse_entry_type s =
    if str_eq s (codes "doc")
    then some doc
    else if str_eq s (codes "note")
    then some note
    else if str_eq s (codes "term")
    then some term
    else none

unfoldable pub entry_type_str : EntryType → Bytes
entry_type_str note = codes "note"
entry_type_str term = codes "term"
entry_type_str doc = codes "doc"

-- (uint32_t)std::atoi(s), at a string of digits.
unfoldable pub atoi_u32 : Bytes → ℕ
atoi_u32 s = min (digits_value 0 s) (2 ^ 63 - 1) % 2 ^ 32

-- The outputs `path` and `line`.
unfoldable pub split_path_line : Bytes → Bytes × ℕ
unfolding rfind
split_path_line input = elim (rfind b':' input) [
  | none ↦ (input, 0)
  | some colon ↦
      if ltb (colon + 1) (length input) && all is_digit (drop (colon + 1) input)
      then (take colon input, atoi_u32 (drop (colon + 1) input))
      else (input, 0)
]

-- " \xC2\xA7 ", a section sign between spaces.
abbrev pub section_sign : Bytes
section_sign = 0x20 ∷ 0xC2 ∷ 0xA7 ∷ 0x20 ∷ []

-- The line and the chunk of a doc location, each left out if unset.
unfoldable pub doc_suffix : ℕ → Bytes → Bytes
doc_suffix line chunk =
    (if ltb 0 line then b':' ∷ to_string line else [])
    ++ (if is_nil chunk then [] else section_sign ++ chunk)

unfoldable pub format_loc : EntryType → Bytes → Bytes → ℕ → Bytes → Bytes
unfolding doc_suffix
format_loc type index_name path line chunk =
    let r = entry_type_str type ++ (b' ' ∷ (index_name ++ (b' ' ∷ path))) in
    elim type [ doc ↦ r ++ doc_suffix line chunk | note ↦ r | term ↦ r ]
