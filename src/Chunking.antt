-- ===== src/Chunking.antt =====
-- src/chunking/: how a file is cut into the pieces that are embedded.
pub mod Regex
pub mod Window
pub mod Markdown
use gogol.Prelude.{ℕ}
use gogol.Text.{Bytes}

-- `end_line` is 0 where it is not known.
pub record Chunk : Type 0 where
  pub heading : Bytes
  pub line : ℕ
  pub end_line : ℕ
  pub content : Bytes
