-- ===== src/Chunking/Regex/Tests.antt =====
-- A text with two declarations, cut where a line begins with `t`.
use gogol.Prelude.{◌≡◌, refl, Bool, true, false, [], ◌∷◌, ◌++◌, ◌==◌}
use gogol.Text.{Bytes, codes, index_where, find, str_eq}
use gogol.Text.Lines.{each_line, line_end}
use gogol.Chunking.Regex.{
  supports, trim_end, heading_of, add_line, begin_chunk, chunk_line, finish_chunks, chunk,
}

abbrev begins_with_t : Bytes → Bool
begins_with_t [] = false
begins_with_t (c ∷ s) = c == b't'

abbrev schema : Bytes
schema =
    codes "# x" ++ (b'\n' ∷ (codes "type A {" ++ (b'\n' ∷ (codes "}" ++ (b'\n' ∷ codes "type B")))))

chunk_test :
    chunk begins_with_t schema
    ≡ record { heading = []; line = 1; end_line = 0; content = codes "# x" }
      ∷ record {
        heading = codes "type A";
        line = 2;
        end_line = 0;
        content = codes "type A {" ++ (b'\n' ∷ codes "}");
      }
      ∷ record { heading = codes "type B"; line = 4; end_line = 0; content = codes "type B" }
      ∷ []
unfolding chunk each_line line_end find index_where chunk_line begin_chunk add_line heading_of
    trim_end finish_chunks
chunk_test = refl

supports_test : supports (codes ".gql" ∷ []) (codes ".gql") ≡ true
unfolding supports str_eq
supports_test = refl
