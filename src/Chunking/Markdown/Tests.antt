-- ===== src/Chunking/Markdown/Tests.antt =====
-- A document with a small section.
use gogol.Prelude.{◌≡◌, refl, [], ◌∷◌, ◌++◌}
use gogol.Text.{Bytes, codes, index_where, find, str_eq}
use gogol.Text.Lines.{each_line, line_end}
use gogol.Chunking.Window.{newlines}
use gogol.Chunking.Markdown.{
  is_fence, is_heading, heading_text, save_section, markdown_line, sections, append_to_last,
  merge_chunk, chunk_markdown,
}
use gogol.Chunking.Markdown.Merge.{flat, flat-chunk_markdown}

abbrev document : Bytes
document =
    codes "# One" ++ (b'\n' ∷ (codes "a" ++ (b'\n' ∷ (codes "## Two" ++ (b'\n' ∷ codes "b")))))

chunk_markdown_test :
    chunk_markdown document
    ≡ record {
      heading = codes "One";
      line = 1;
      end_line = 0;
      content = codes "a" ++ (b'\n' ∷ (codes "Two" ++ (b'\n' ∷ codes "b")));
    }
      ∷ []
unfolding chunk_markdown sections each_line line_end find index_where markdown_line is_fence
    is_heading heading_text save_section merge_chunk append_to_last newlines str_eq
chunk_markdown_test = refl

flat-chunk_markdown_example : flat (chunk_markdown document) ≡ flat (sections document)
flat-chunk_markdown_example = flat-chunk_markdown document
