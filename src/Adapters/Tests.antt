-- ===== src/Adapters/Tests.antt =====
-- The lines that are shown of a file.
use gogol.Prelude.{◌≡◌, [], ◌∷◌}
use gogol.Text.{codes}
use gogol.Text.Segments.{join}
use gogol.Text.Lines.{getlines}
use gogol.Adapters.Files.{shown_lines}
use gogol.Adapters.Shown.{shown_lines-join}

-- Two lines of a text from its second line on.
shown_lines-join_example : shown_lines 2 2 (codes "a\n\nb\nc\n") ≡ join b'\n' (codes "b" ∷ [])
unfolding getlines
shown_lines-join_example = shown_lines-join 2 2 (codes "a\n\nb\nc\n")
