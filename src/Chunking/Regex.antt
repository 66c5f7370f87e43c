-- ===== src/Chunking/Regex.antt =====
-- RegexChunker of src/chunking/chunker_iface.cpp. The search for the pattern in a line, by
-- std::regex_search, is a parameter.
pub mod Lines
mod Tests
use gogol.Prelude.{
  ℕ, suc, ◌+◌, ◌%◌, ◌^◌, Bool, true, false, not, ◌&&◌, ◌||◌, none, some, List, [], ◌∷◌, ◌++◌, ◌==◌,
  if◌then◌else◌, is_nil, length, take,
}
use gogol.Text.{Bytes, str_eq, index_where}
use gogol.Text.Lines.{each_line}
use gogol.Chunking.{Chunk}

unfoldable pub supports : List Bytes → Bytes → Bool
supports [] ext = false
supports (e ∷ exts) ext = if str_eq e ext then true else supports exts ext

-- The loop that pops spaces off the end.
unfoldable pub trim_end : Bytes → Bytes
trim_end [] = []
trim_end (c ∷ s) = let rest = trim_end s in if c == b' ' && is_nil rest then [] else c ∷ rest

-- The line up to the first ( or {, trimmed.
unfoldable pub heading_of : Bytes → Bytes
unfolding index_where trim_end
heading_of line = elim (index_where (λ c. c == b'(' || c == b'{') line) [
  | none ↦ trim_end line
  | some end ↦ trim_end (take end line)
]

-- The local variables of the loop.
pub record Cut : Type 0 where
  pub chunks : List Chunk
  pub heading : Bytes
  pub body : Bytes
  pub chunk_start : ℕ
  pub current_line : ℕ

abbrev pub no_cut : Cut
no_cut = record { chunks = []; heading = []; body = []; chunk_start = 1; current_line = 1 }

-- if (!body.empty()) body += '\n'; body += line;
unfoldable pub add_line : Bytes → Bytes → Bytes
add_line body line = if not (is_nil body) then body ++ (b'\n' ∷ line) else line

abbrev pub push_chunk : Cut → List Chunk
push_chunk s =
    s.chunks
    ++ record { heading = s.heading; line = s.chunk_start; end_line = 0; content = s.body } ∷ []

-- A line that the pattern is found in begins a chunk.
unfoldable pub begin_chunk : Bytes → Cut → Cut
begin_chunk line s =
    if not (is_nil s.body) || not (is_nil s.heading)
    then record s {
      chunks = push_chunk s;
      body = [];
      heading = heading_of line;
      chunk_start = s.current_line;
    }
    else if is_nil s.body
    then record s { heading = heading_of line; chunk_start = s.current_line }
    else s

-- The body of the loop. `current_line` is a uint32_t.
unfoldable pub chunk_line : (Bytes → Bool) → Bytes → Cut → Cut
chunk_line found line s =
    let s' = if found line then begin_chunk line s else s in
    record s' { body = add_line s'.body line; current_line = (s'.current_line + 1) % 2 ^ 32 }

-- The last chunk.
unfoldable pub finish_chunks : Cut → List Chunk
finish_chunks s = if not (is_nil s.body) || not (is_nil s.heading) then push_chunk s else s.chunks

unfoldable pub chunk : (Bytes → Bool) → Bytes → List Chunk
chunk found content = finish_chunks (each_line (length content) content 0 (chunk_line found) no_cut)
