-- ===== src/Chunking/Regex/Lines.antt =====
-- The chunks of RegexChunker hold the lines of the text.
use gogol.Prelude.{◌≡◌, ◌⊎◌, false, List, [], map, foldl, is_nil}
use gogol.Text.{Bytes}
use gogol.Chunking.Regex.{Cut, add_line}

-- Texts put together with newlines, blank ones at the start left out: what a chunk's body is of its
-- lines.
unfoldable pub glue : List Bytes → Bytes
glue = foldl add_line []

-- What the loop keeps: the chunks and the body hold the lines so far, and a chunk is only pushed
-- with lines in it.
Holds : List Bytes → Cut → Type 0
Holds lines s =
    (glue lines ≡ add_line (glue (map (λ c. c.content) s.chunks)) s.body)
    × ((is_nil s.body ≡ false) ⊎ ((s.chunks ≡ []) × (s.heading ≡ [])))
