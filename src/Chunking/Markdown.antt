-- ===== src/Chunking/Markdown.antt =====
-- chunk_markdown of src/chunking/chunker.cpp: sections by headings of the first two levels, outside
-- code fences, the small ones put into the section before.
pub mod Merge
mod Tests
use gogol.Prelude.{
  ℕ, suc, ◌+◌, ◌%◌, ◌^◌, Bool, true, false, not, ◌&&◌, ◌||◌, none, some, List, [], ◌∷◌, ◌++◌, foldl,
  ltb, leb, ◌==◌, if◌then◌else◌, is_nil, length, take, get_elem?,
}
use gogol.Text.{Bytes, codes, str_eq}
use gogol.Text.Lines.{each_line}
use gogol.Chunking.{Chunk}
use gogol.Chunking.Window.{newlines}

-- The local variables of the loop over the lines.
pub record Scan : Type 0 where
  pub chunks : List Chunk
  pub heading : Bytes
  pub content : Bytes
  pub chunk_start : ℕ
  pub current_line : ℕ
  pub in_code : Bool

abbrev pub no_scan : Scan
no_scan = record {
  chunks = [];
  heading = [];
  content = [];
  chunk_start = 1;
  current_line = 1;
  in_code = false;
}

unfoldable pub is_fence : Bytes → Bool
is_fence line = leb 3 (length line) && str_eq (take 3 line) (codes "```")

-- line[i], at a place in the line.
abbrev pub char_at : Bytes → ℕ → ℕ
char_at line i = elim (get_elem? line i) [ none ↦ 0 | some c ↦ c ]

unfoldable pub is_heading : Bytes → Bool
is_heading line =
    ltb 2 (length line)
    && (char_at line 0 == b'#'
        && (char_at line 1 == b' ' || (char_at line 1 == b'#' && char_at line 2 == b' ')))

-- The line from find_first_not_of("# ") on; empty if there is no such place.
unfoldable pub heading_text : Bytes → Bytes
heading_text [] = []
heading_text (c ∷ s) = let rest = heading_text s in if c == b'#' || c == b' ' then rest else c ∷ s

unfoldable pub save_section : Scan → List Chunk
save_section s =
    if not (is_nil s.content) || not (is_nil s.heading)
    then s.chunks
      ++ record { heading = s.heading; line = s.chunk_start; end_line = 0; content = s.content }
        ∷ []
    else s.chunks

-- The body of the loop. `current_line` is a uint32_t.
unfoldable pub markdown_line : Bytes → Scan → Scan
markdown_line line s =
    let in_code' = if is_fence line then not s.in_code else s.in_code in
    if not in_code' && is_heading line
    then record {
      chunks = save_section s;
      heading = heading_text line;
      content = [];
      chunk_start = s.current_line;
      current_line = (s.current_line + 1) % 2 ^ 32;
      in_code = in_code';
    }
    else record s {
      content = (if not (is_nil s.content) then s.content ++ b'\n' ∷ [] else s.content) ++ line;
      current_line = (s.current_line + 1) % 2 ^ 32;
      in_code = in_code';
    }

-- The chunks before they are merged.
unfoldable pub sections : Bytes → List Chunk
sections text = save_section (each_line (length text) text 0 markdown_line no_scan)

-- merged.back().content += s, at a vector that is not empty.
unfoldable pub append_to_last : List Chunk → Bytes → List Chunk
append_to_last [] s = []
append_to_last (c ∷ []) s = record c { content = c.content ++ s } ∷ []
append_to_last (c ∷ d ∷ cs) s = c ∷ append_to_last (d ∷ cs) s

abbrev pub line_count : Chunk → ℕ
line_count c = 1 + newlines c.content

unfoldable pub merge_chunk : List Chunk → Chunk → List Chunk
merge_chunk merged c =
    if is_nil merged || leb 5 (line_count c)
    then merged ++ c ∷ []
    else append_to_last merged (b'\n' ∷ (c.heading ++ (b'\n' ∷ c.content)))

unfoldable pub chunk_markdown : Bytes → List Chunk
chunk_markdown text = foldl merge_chunk [] (sections text)
