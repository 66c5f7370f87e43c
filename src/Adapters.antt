-- ===== src/Adapters.antt =====
-- src/adapters/: the sources of the entries of an index, notes and files, with what they share.
pub mod Notes
pub mod EmbedText
pub mod Files
pub mod Shown
mod Tests
use gogol.Prelude.{
  ℕ, zero, suc, ◌^◌, ◌-◌, Bool, true, false, ◌&&◌, Option, none, some, List, [], ◌∷◌, ◌++◌, foldl,
  ◌+◌, ◌||◌, ltb, leb, ◌==◌, if◌then◌else◌, is_nil, take, keep, map,
}
use gogol.Text.{Bytes}
use gogol.Config.{comma_pieces}

pub record AdapterChunk : Type 0 where
  pub key : Bytes
  pub heading : Bytes
  pub line : ℕ
  pub end_line : ℕ
  pub hash : ℕ
  pub text : Bytes

pub data EntryStatus : Type 0 where
  ok stale missing : EntryStatus

-- The body of the loops that put lines into a result.
unfoldable pub append_line : Bytes → Bytes → Bytes
append_line result l = (if is_nil result then result else result ++ b'\n' ∷ []) ++ l

-- (int)max_lines > 0, for the 32 bits of an int.
abbrev pub is_positive : ℕ → Bool
is_positive n = ltb 0 n && ltb n (2 ^ 31)

-- std::isupper, std::islower, std::tolower, std::toupper and std::isalnum, in the C locale.
abbrev pub is_upper : ℕ → Bool
is_upper c = leb b'A' c && leb c b'Z'

abbrev pub is_lower : ℕ → Bool
is_lower c = leb b'a' c && leb c b'z'

abbrev pub to_lower : ℕ → ℕ
to_lower c = if is_upper c then c + 32 else c

abbrev pub to_upper : ℕ → ℕ
to_upper c = if is_lower c then c - 32 else c

-- item.find_first_not_of(" \t") and item.find_last_not_of(" \t"), as what is left between them.
unfoldable pub blank_start : Bytes → Bytes
blank_start [] = []
blank_start (c ∷ s) = let rest = blank_start s in if c == b' ' || c == b'\t' then rest else c ∷ s

unfoldable pub blank_tail : Bytes → Bytes
blank_tail [] = []
blank_tail (c ∷ s) =
    let rest = blank_tail s in if is_nil rest && (c == b' ' || c == b'\t') then [] else c ∷ rest

-- split_csv of src/config/utils.h.
unfoldable pub split_csv : Bytes → List Bytes
unfolding blank_start blank_tail
split_csv s =
    keep (λ item. if is_nil item then false else true)
      (map (λ item. blank_tail (blank_start item)) (comma_pieces s))
