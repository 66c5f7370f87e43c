-- ===== src/Chunking/Window/Cover.antt =====
-- The windows cover the text.
use gogol.Prelude.{
  take-take, ℕ, zero, suc, ◌+◌, ◌-◌, ◌*◌, ◌%◌, ◌^◌, ◌≤◌, ◌<◌, ◌≡◌, refl, sym, Option, some, not,
  inl, inr, Bool-cases, List, [], ◌∷◌, ◌++◌, arith, ltb, if◌then◌else◌, le→ltb, ltb→le, ltb→lt, min,
  is_nil, length, take, drop, take-all, drop-all, length-drop, take-append-drop, drop-drop,
}
use gogol.Text.{Bytes}
use gogol.Chunking.{Chunk}
use gogol.Chunking.Window.{advance, line_at, window_loop, chunk_window}

-- The text of windows that begin `step` bytes apart.
unfoldable pub reassemble : ℕ → List Chunk → Bytes
reassemble step [] = []
reassemble step (c ∷ cs) =
    let rest = reassemble step cs in if is_nil cs then c.content else take step c.content ++ rest

count_suc : (n step i size : ℕ) → size ≤ (i + step) + n * step → size ≤ i + suc n * step
count_suc n step i size h = omega arith

module _ (text : Bytes) (window overlap : ℕ) (moves : overlap < window)
    (small : length text + window < 2 ^ 63) where
  advance-step : (i : ℕ) → i ≤ length text → advance i window overlap ≡ i + (window - overlap)
  unfolding advance
  advance-step i h = omega arith

  window_end :
      (i : ℕ)
      → i < length text
      → min ((i + window) % 2 ^ 64) (length text) - i ≡ min window (length text - i)
  window_end i h = omega arith

  -- What the loop gives from an offset: it ends, and its chunks are not none before the end.
  abbrev Ends : ℕ → Option (List Chunk) → Type 0
  Ends i result =
      (chunks : List Chunk) × (result ≡ some chunks)
      × (is_nil chunks ≡ not (ltb i (length text)))
      × (length text ≤ i + length chunks * (window - overlap))
      × (reassemble (window - overlap) chunks ≡ drop i text)

  window_loop-behind :
      (fuel i : ℕ) → length text ≤ i → window_loop fuel text window overlap i ≡ some []
  unfolding window_loop
  window_loop-behind zero i h = rw (le→ltb i (length text) h) refl
  window_loop-behind (suc fuel) i h = rw (le→ltb i (length text) h) refl

  Ends-behind : (fuel i : ℕ) → length text ≤ i → Ends i (window_loop fuel text window overlap i)
  unfolding reassemble
  Ends-behind fuel i h = (
    [],
    window_loop-behind fuel i h,
    rw (le→ltb i (length text) h) refl,
    omega arith,
    sym (drop-all i text h),
  )

  -- A chunk in front of those from the next offset on.
  Ends-cons :
      (i line : ℕ) (chunks : List Chunk)
      → i < length text
      → is_nil chunks ≡ not (ltb (i + (window - overlap)) (length text))
      → reassemble (window - overlap) chunks ≡ drop (i + (window - overlap)) text
      → reassemble (window - overlap) (
          record {
            heading = [];
            line = line;
            end_line = 0;
            content = take (min window (length text - i)) (drop i text);
          }
          ∷ chunks)
        ≡ drop i text
  unfolding reassemble
  Ends-cons i line chunks h more same =
      let next = i + (window - overlap) in
      elim (Bool-cases (ltb next (length text))) [
        | inl inside ↦
            let below = ltb→lt next (length text) inside in
            rw
              (
                more,
                inside,
                same,
                take-take (window - overlap) (min window (length text - i)) (drop i text)
                    (omega arith),
                ← drop-drop (window - overlap) i text,
              )
              (take-append-drop (window - overlap) (drop i text))
        | inr last ↦
            let behind = ltb→le next (length text) last in
            rw (more, last) (take-all _ (drop i text) (omega (arith, length-drop i text)))
      ]

  window_loop-Ends :
      (fuel i : ℕ) → length text ≤ i + fuel → Ends i (window_loop fuel text window overlap i)
  unfolding window_loop
  window_loop-Ends zero i enough = Ends-behind zero i (omega arith)
  window_loop-Ends (suc fuel) i enough = elim (Bool-cases (ltb i (length text))) [
    | inr done ↦ Ends-behind (suc fuel) i (ltb→le i (length text) done)
    | inl going ↦
        let inside = ltb→lt i (length text) going in
        let next = i + (window - overlap) in
        let (chunks, returned, more, whole, same) = window_loop-Ends fuel next (omega arith) in
        let chunk : Chunk = record {
          heading = [];
          line = line_at text i;
          end_line = 0;
          content = take (min window (length text - i)) (drop i text);
        } in
        (
          chunk ∷ chunks,
          rw (going, advance-step i (omega arith), window_end i inside, returned) refl,
          rw going refl,
          count_suc (length chunks) (window - overlap) i (length text) whole,
          Ends-cons i (line_at text i) chunks inside more same,
        )
  ]

  -- If the overlap is less than the window and the text is small, the loop ends within as many
  -- rounds as the text has bytes, and only where the next window would begin behind the text; the
  -- window at the end, with the first bytes of each window before it up to where the next begins,
  -- are the text.
  pub reassemble-chunk_window :
      (chunks : List Chunk) × (chunk_window text window overlap ≡ some chunks)
      × (length text ≤ length chunks * (window - overlap))
      × (reassemble (window - overlap) chunks ≡ text)
  unfolding chunk_window
  reassemble-chunk_window =
      let (chunks, returned, more, whole, same) = window_loop-Ends (length text) 0 (omega arith) in
      (chunks, returned, omega (arith, whole), same)
