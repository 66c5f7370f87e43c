-- ===== src/Chunking/Window.antt =====
-- chunk_window of src/chunking/chunker.cpp, for a window and an overlap that are not negative: 2000
-- and 200 in every call. The step is an int that is converted to size_t.
pub mod Cover
mod Tests
use mathlib.Core.Option
use gogol.Prelude.{
  ℕ, zero, suc, ◌+◌, ◌-◌, ◌%◌, ◌^◌, Option, none, some, true, false, List, [], ◌∷◌, ltb, ◌==◌,
  if◌then◌else◌, min, length, take,
}
use gogol.Text.{Bytes, substr}
use gogol.Chunking.{Chunk}

-- The newlines of a text.
unfoldable pub newlines : Bytes → ℕ
newlines [] = 0
newlines (c ∷ s) = let rest = newlines s in if c == b'\n' then suc rest else rest

-- The line at offset i, a uint32_t.
abbrev pub line_at : Bytes → ℕ → ℕ
line_at text i = (1 + newlines (take i text)) % 2 ^ 32

-- i += window - overlap.
unfoldable pub advance : ℕ → ℕ → ℕ → ℕ
advance i window overlap = (i + 2 ^ 64 + window - overlap) % 2 ^ 64

-- The loop, with fuel for the rounds, and none where the fuel ends before the loop does.
unfoldable pub window_loop : ℕ → Bytes → ℕ → ℕ → ℕ → Option (List Chunk)
window_loop zero text window overlap i = if ltb i (length text) then none else some []
window_loop (suc fuel) text window overlap i =
    let rest = window_loop fuel text window overlap (advance i window overlap) in
    let end = min ((i + window) % 2 ^ 64) (length text) in
    if ltb i (length text)
    then Option.map
        (◌∷◌ (record {
          heading = [];
          line = line_at text i;
          end_line = 0;
          content = substr text i (end - i);
        }))
        rest
    else some []

unfoldable pub chunk_window : Bytes → ℕ → ℕ → Option (List Chunk)
chunk_window text window overlap = window_loop (length text) text window overlap 0
