-- ===== src/Adapters/Shown.antt =====
-- The lines that `get` shows.
use gogol.Prelude.{
  ℕ, ◌-◌, ◌≡◌, refl, sym, ap, ◌∙◌, List, [], ◌∷◌, ◌++◌, foldl, append-nil, append_assoc,
  if◌then◌else◌, is_nil, drop, take,
}
use gogol.Text.{Bytes}
use gogol.Text.Lines.{getlines}
use gogol.Text.Segments.{join, join_behind}
use gogol.Adapters.{append_line, is_positive}
use gogol.Adapters.Files.{shown_lines}

-- The lines from the first that is not empty.
abbrev pub from_full : List Bytes → List Bytes
from_full [] = []
from_full (l ∷ ls) = if is_nil l then from_full ls else l ∷ ls

foldl-append_line :
    (c : ℕ) (result : Bytes) (ls : List Bytes)
    → foldl append_line (c ∷ result) ls ≡ (c ∷ result) ++ join_behind b'\n' ls
unfolding append_line join_behind
foldl-append_line c result [] = ap (◌∷◌ c) (sym (append-nil result))
foldl-append_line c result (l ∷ ls) =
    foldl-append_line c ((result ++ (b'\n' ∷ [])) ++ l) ls
    ∙ ap (◌∷◌ c) (
        append_assoc (result ++ (b'\n' ∷ [])) l (join_behind b'\n' ls)
        ∙ append_assoc result (b'\n' ∷ []) (l ++ join_behind b'\n' ls))

foldl-from_full : (ls : List Bytes) → foldl append_line [] ls ≡ join b'\n' (from_full ls)
unfolding append_line join
foldl-from_full [] = refl
foldl-from_full ([] ∷ ls) = foldl-from_full ls
foldl-from_full ((c ∷ l) ∷ ls) = foldl-append_line c l ls

-- What is shown of a file are the lines from the given one on, up to the limit if there is one, with a
-- newline between them, but without the empty lines that they begin with.
pub shown_lines-join :
    (line max_lines : ℕ) (content : Bytes)
    → shown_lines line max_lines content ≡ (
        let behind = drop (line - 1) (getlines content) in
        join b'\n' (from_full (if is_positive max_lines then take max_lines behind else behind)))
unfolding shown_lines
shown_lines-join line max_lines content =
    let behind = drop (line - 1) (getlines content) in
    foldl-from_full (if is_positive max_lines then take max_lines behind else behind)
