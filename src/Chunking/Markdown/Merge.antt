-- ===== src/Chunking/Markdown/Merge.antt =====
-- What the merging of small sections keeps.
use gogol.Prelude.{
  ◌+◌, ◌≤◌, ◌≡◌, refl, sym, ap, ◌∙◌, true, false, ◌||◌, inl, inr, Bool-cases, List, [], ◌∷◌, ◌++◌,
  foldl, arith, leb, is_nil, drop, append_assoc, append-nil, All, All-append,
}
use gogol.Text.{Bytes}
use gogol.Chunking.{Chunk}
use gogol.Chunking.Window.{newlines}
use gogol.Chunking.Markdown.{append_to_last, line_count, merge_chunk, sections, chunk_markdown}

-- The text of the chunks, each with its heading in a line of its own.
unfoldable pub flat : List Chunk → Bytes
flat [] = []
flat (c ∷ cs) = b'\n' ∷ (c.heading ++ (b'\n' ∷ (c.content ++ flat cs)))

framed :
    (h c t s : Bytes)
    → b'\n' ∷ (h ++ (b'\n' ∷ (c ++ (t ++ s)))) ≡ (b'\n' ∷ (h ++ (b'\n' ∷ (c ++ t)))) ++ s
framed h c t s = ap (◌∷◌ b'\n') (
    ap (λ x. h ++ (b'\n' ∷ x)) (sym (append_assoc c t s))
    ∙ sym (append_assoc h (b'\n' ∷ (c ++ t)) s))

flat-append : (cs ds : List Chunk) → flat (cs ++ ds) ≡ flat cs ++ flat ds
unfolding flat
flat-append [] ds = refl
flat-append (c ∷ cs) ds = rw (flat-append cs ds) (framed c.heading c.content (flat cs) (flat ds))

flat-append_to_last :
    (cs : List Chunk) (s : Bytes) → is_nil cs ≡ false → flat (append_to_last cs s) ≡ flat cs ++ s
unfolding flat append_to_last
flat-append_to_last [] s h = absurd cc
flat-append_to_last (c ∷ []) s h =
    rw (append-nil (c.content ++ s)) (framed c.heading c.content [] s)
flat-append_to_last (c ∷ d ∷ cs) s h =
    ap (λ t. b'\n' ∷ (c.heading ++ (b'\n' ∷ (c.content ++ t))))
      (flat-append_to_last (d ∷ cs) s refl)
    ∙ framed c.heading c.content (flat (d ∷ cs)) s

flat-merge_chunk :
    (merged : List Chunk) (c : Chunk) → flat (merge_chunk merged c) ≡ flat merged ++ flat (c ∷ [])
unfolding merge_chunk
flat-merge_chunk merged c = elim (Bool-cases (is_nil merged || leb 5 (line_count c))) [
  | inl kept ↦ rw kept (flat-append merged (c ∷ []))
  | inr small ↦
      rw small (
        flat-append_to_last merged _ (ground arith) ∙ unfold flat in rw (append-nil c.content) refl)
]

flat-merge : (merged cs : List Chunk) → flat (foldl merge_chunk merged cs) ≡ flat merged ++ flat cs
flat-merge merged [] = sym (unfold flat in append-nil (flat merged))
flat-merge merged (c ∷ cs) =
    flat-merge (merge_chunk merged c) cs
    ∙ ap (λ t. t ++ flat cs) (flat-merge_chunk merged c)
    ∙ append_assoc (flat merged) (flat (c ∷ [])) (flat cs)
    ∙ ap (◌++◌ (flat merged)) (sym (flat-append (c ∷ []) cs))

-- Merging keeps the text: the headings and the contents of the sections stand in the merged chunks
-- in their order, a heading in a line of its own before its content.
pub flat-chunk_markdown : (text : Bytes) → flat (chunk_markdown text) ≡ flat (sections text)
unfolding chunk_markdown
flat-chunk_markdown text = flat-merge [] (sections text) ∙ unfold flat in refl

newlines-append : (s t : Bytes) → newlines (s ++ t) ≡ newlines s + newlines t
unfolding newlines
newlines-append [] t = omega arith
newlines-append (c ∷ s) t = ground (arith, newlines-append s t)

-- Five lines or more.
abbrev pub IsLarge : Chunk → Type 0
IsLarge c = 5 ≤ line_count c

append_to_last-IsLarge :
    (cs : List Chunk) (s : Bytes) → All IsLarge cs → All IsLarge (append_to_last cs s)
unfolding append_to_last
append_to_last-IsLarge [] s large = tt
append_to_last-IsLarge (c ∷ []) s large = (omega (arith, newlines-append c.content s, large.0), tt)
append_to_last-IsLarge (c ∷ d ∷ cs) s large = (large.0, append_to_last-IsLarge (d ∷ cs) s large.1)

behind-append_to_last :
    (cs : List Chunk) (s : Bytes)
    → All IsLarge (drop 1 cs)
    → All IsLarge (drop 1 (append_to_last cs s))
unfolding append_to_last
behind-append_to_last [] s large = tt
behind-append_to_last (c ∷ []) s large = tt
behind-append_to_last (c ∷ d ∷ cs) s large = append_to_last-IsLarge (d ∷ cs) s large

behind-push :
    (merged : List Chunk) (c : Chunk)
    → All IsLarge (drop 1 merged)
    → is_nil merged || leb 5 (line_count c) ≡ true
    → All IsLarge (drop 1 (merged ++ c ∷ []))
behind-push [] c large kept = tt
behind-push (d ∷ merged) c large kept = All-append IsLarge merged (c ∷ []) large (ground arith, tt)

behind-merge :
    (merged cs : List Chunk)
    → All IsLarge (drop 1 merged)
    → All IsLarge (drop 1 (foldl merge_chunk merged cs))
unfolding merge_chunk
behind-merge merged [] large = large
behind-merge merged (c ∷ cs) large =
    behind-merge (merge_chunk merged c) cs
      (elim (Bool-cases (is_nil merged || leb 5 (line_count c))) [
        | inl kept ↦ rw kept (behind-push merged c large kept)
        | inr small ↦ rw small (behind-append_to_last merged _ large)
      ])

-- Every chunk but the first has five lines or more.
pub chunk_markdown-IsLarge : (text : Bytes) → All IsLarge (drop 1 (chunk_markdown text))
unfolding chunk_markdown
chunk_markdown-IsLarge text = behind-merge [] (sections text) tt
