-- ===== src/Config.antt =====
-- src/config/config.{h,cpp}: the parts that the readers of ~/.gogol/config share. HOME and the
-- content of the file are arguments. An int is a 32-bit number in two's complement.
pub mod Indexes
pub mod Global
pub mod Keys
pub mod Chunkers
mod Tests
use gogol.Prelude.{
  ℕ, zero, suc, ◌+◌, ◌-◌, ◌*◌, ◌%◌, ◌^◌, Bool, true, false, not, ◌&&◌, ◌||◌, Option, none, some,
  List, [], ◌∷◌, ◌++◌, ltb, leb, ◌==◌, if◌then◌else◌, is_nil, length, take, drop, get_elem?, min,
}
use gogol.Text.{Bytes, codes, str_eq, index_where}
use gogol.Text.Lines.{put_first}

-- find_first_not_of(" \t\r"), as what is left from there.
unfoldable pub trim_start : Bytes → Bytes
trim_start [] = []
trim_start (c ∷ s) =
    let rest = trim_start s in if c == b' ' || (c == b'\t' || c == b'\r') then rest else c ∷ s

-- find_last_not_of(" \t\r"), as what is left up to there.
unfoldable pub trim_tail : Bytes → Bytes
trim_tail [] = []
trim_tail (c ∷ s) =
    let rest = trim_tail s in
    if is_nil rest && (c == b' ' || (c == b'\t' || c == b'\r')) then [] else c ∷ rest

unfoldable pub trim : Bytes → Bytes
trim s = trim_tail (trim_start s)

-- `home` is getenv("HOME").
unfoldable pub expand_home : Option Bytes → Bytes → Bytes
expand_home home (c ∷ d ∷ path) =
    let here : Bytes = elim home [ none ↦ c ∷ d ∷ path | some h ↦ h ++ (d ∷ path) ] in
    if c == b'~' && d == b'/' then here else c ∷ d ∷ path
expand_home home path = path

pub data IndexMode : Type 0 where
  r rw : IndexMode

unfoldable pub parse_mode : Bytes → IndexMode
parse_mode s = if str_eq s (codes "rw") then rw else r

-- Overrides: 2 ^ 32 - 1, which is -1, inherits the global default.
abbrev pub inherit : ℕ
inherit = 2 ^ 32 - 1

pub record IndexConfig : Type 0 where
  pub name : Bytes
  pub paths : List Bytes
  pub extensions : List Bytes
  pub mode : IndexMode
  pub model : Bytes
  pub memory : Bytes
  pub watch_override : ℕ
  pub watch_debounce_ms_override : ℕ

unfoldable pub memory_dir : Option Bytes → IndexConfig → Bytes
memory_dir home cfg =
    let base : Bytes = elim home [ none ↦ codes "." | some h ↦ h ] in
    if not (is_nil cfg.memory) then cfg.memory else base ++ (codes "/.gogol/memory/" ++ cfg.name)

-- isspace, in the C locale.
abbrev pub is_space : ℕ → Bool
is_space c = c == b' ' || (leb 9 c && leb c 13)

abbrev digit_or_not : ℕ → Bool
digit_or_not c = leb b'0' c && leb c b'9'

-- The value of the digits at the start.
unfoldable pub leading_digits : ℕ → Bytes → ℕ
leading_digits acc [] = acc
leading_digits acc (c ∷ s) =
    let rest = leading_digits (acc * 10 + (c - b'0')) s in if digit_or_not c then rest else acc

-- std::atoi of glibc: strtol saturates, then the value is cut to 32 bits.
unfoldable pub atoi : Bytes → ℕ
atoi [] = 0
atoi (c ∷ s) =
    let rest = atoi s in
    if is_space c
    then rest
    else if c == b'-'
    then (2 ^ 64 - min (leading_digits 0 s) (2 ^ 63)) % 2 ^ 32
    else if c == b'+'
    then min (leading_digits 0 s) (2 ^ 63 - 1) % 2 ^ 32
    else min (leading_digits 0 (c ∷ s)) (2 ^ 63 - 1) % 2 ^ 32

-- line.empty() || line[0] == '#'.
unfoldable pub is_skipped : Bytes → Bool
is_skipped [] = true
is_skipped (c ∷ s) = c == b'#'

unfoldable pub last_byte : Bytes → ℕ
last_byte [] = 0
last_byte (c ∷ []) = c
last_byte (c ∷ d ∷ s) = last_byte (d ∷ s)

-- line.front() == '[' && line.back() == ']', at a line that is not empty.
unfoldable pub is_header : Bytes → Bool
is_header [] = false
is_header (c ∷ s) = c == b'[' && last_byte (c ∷ s) == b']'

-- The key and the value around the first '='.
unfoldable pub key_value : Bytes → Option (Bytes × Bytes)
key_value line = elim (index_where (λ c. c == b'=') line) [
  | none ↦ none
  | some eq ↦ some (trim (take eq line), trim (drop (eq + 1) line))
]

-- What repeated std::getline(iss, p, ',') yields.
unfoldable pub comma_pieces : Bytes → List Bytes
comma_pieces [] = []
comma_pieces (c ∷ s) =
    let rest = comma_pieces s in if c == b',' then [] ∷ rest else put_first c rest

unfoldable pub is_true : Bytes → Bool
is_true value =
    str_eq value (codes "true") || (str_eq value (codes "1") || str_eq value (codes "yes"))
