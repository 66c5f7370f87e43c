-- ===== src/Chunking/Window/Tests.antt =====
-- Windows of four bytes over a text of nine.
use gogol.Prelude.{ℕ, ◌≤◌, ◌*◌, length, ◌≡◌, refl, some, List, [], ◌∷◌, arith}
use gogol.Text.{codes}
use gogol.Chunking.{Chunk}
use gogol.Chunking.Window.{newlines, advance, window_loop, chunk_window}
use gogol.Chunking.Window.Cover.{reassemble, reassemble-chunk_window}

abbrev window_of : ℕ → List ℕ → Chunk
window_of line s = record { heading = []; line = line; end_line = 0; content = s }

chunk_window_test :
    chunk_window (b'a' ∷ b'\n' ∷ codes "cdefghi") 4 1
    ≡ some (
        window_of 1 (b'a' ∷ b'\n' ∷ codes "cd")
        ∷ window_of 2 (codes "defg")
        ∷ window_of 2 (codes "ghi")
        ∷ [])
unfolding chunk_window window_loop advance newlines
chunk_window_test = refl

reassemble-chunk_window_example :
    (chunks : List Chunk) × (chunk_window (codes "abcdefghi") 4 1 ≡ some chunks)
    × (9 ≤ length chunks * 3)
    × (reassemble 3 chunks ≡ codes "abcdefghi")
reassemble-chunk_window_example =
    reassemble-chunk_window (codes "abcdefghi") 4 1 (omega arith) (omega arith)
