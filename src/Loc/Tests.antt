-- ===== src/Loc/Tests.antt =====
-- Tests of src/core/loc.cpp, and its theorems at concrete inputs.
use gogol.Prelude.{◌≡◌, refl, none, some, [], arith, inl}
use gogol.Text.{codes, str_eq}
use gogol.Loc.{
  doc, note, term, parse_entry_type, entry_type_str, atoi_u32, split_path_line, format_loc,
}
use gogol.Loc.Decimal.{is_digit, digits_value, to_string}
use gogol.Loc.Display.{read_loc, read_loc-format_loc}
use gogol.Loc.RoundTrip.{IsSplit, split_path_line-IsSplit}

parse_entry_type_tests :
    (parse_entry_type (codes "term") ≡ some term) × (parse_entry_type (codes "file") ≡ none)
unfolding parse_entry_type str_eq
parse_entry_type_tests = (refl, refl)

split_path_line_tests :
    (split_path_line (codes "src/utils.ts:42") ≡ (codes "src/utils.ts", 42))
    × (split_path_line (codes "a:b") ≡ (codes "a:b", 0))
    × (split_path_line (codes "plain:") ≡ (codes "plain:", 0))
unfolding split_path_line is_digit atoi_u32 digits_value
split_path_line_tests = (refl, refl, refl)

format_loc_tests :
    (format_loc doc (codes "web") (codes "a.ts") 42 [] ≡ codes "doc web a.ts:42")
    × (format_loc note (codes "team") (codes "auth/flows") 7 [] ≡ codes "note team auth/flows")
unfolding format_loc entry_type_str to_string
format_loc_tests = (refl, refl)

split_path_line-IsSplit_example : IsSplit (codes "x:9") (split_path_line (codes "x:9"))
split_path_line-IsSplit_example = split_path_line-IsSplit (codes "x:9")

read_loc-format_loc_example :
    read_loc (format_loc doc (codes "web") (codes "src/a b.ts") 42 [])
    ≡ some (doc, codes "web", (codes "src/a b.ts", 42))
read_loc-format_loc_example =
    read_loc-format_loc doc (codes "web") (codes "src/a b.ts") 42 refl
      (omega arith, inl (omega arith))
