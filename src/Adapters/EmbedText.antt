-- ===== src/Adapters/EmbedText.antt =====
-- The text of a chunk that is embedded, src/adapters/file_adapter.cpp: the words of its
-- identifiers, the directories and the other headings around it, and the glossary.
use gogol.Prelude.{
  ℕ, ◌-◌, Bool, not, ◌&&◌, ◌||◌, none, some, List, [], ◌∷◌, ◌++◌, map, foldl, ltb, ◌==◌,
  if◌then◌else◌, is_nil, length, take, drop, keep,
}
use gogol.Text.{Bytes, codes, str_eq, rfind}
use gogol.Text.Segments.{split}
use gogol.Dict.{Dict}
use gogol.Config.{last_byte}
use gogol.Chunking.{Chunk}
use gogol.Storage.Calls.{insert}
use gogol.Storage.Types.{contains}
use gogol.Adapters.{is_upper, is_lower, to_lower, to_upper}

-- The separator put between, where the result is not empty.
abbrev pub glue : Bytes → Bytes → Bytes → Bytes
glue sep result s = (if is_nil result then result else result ++ sep) ++ s

-- The bytes that end a word.
unfoldable pub is_delimiter : ℕ → Bool
is_delimiter c =
    c == b'_'
    || (c == b'('
        || (c == b')'
            || (c == b','
                || (c == b' '
                    || (c == b':' || (c == b'<' || (c == b'>' || (c == b'[' || c == b']'))))))))

-- A word of more than two bytes is put into the set, in lower case.
unfoldable pub flush : Bytes → List Bytes → List Bytes
flush word words = if ltb 2 (length word) then insert (map to_lower word) words else words

-- The loop of `extract`, with the word and the words so far.
unfoldable pub extract_loop : Bytes → List Bytes → Bytes → List Bytes
unfolding is_delimiter flush
extract_loop word words [] = flush word words
extract_loop word words (c ∷ s) =
    let ended = extract_loop [] (flush word words) s in
    let split_here = extract_loop (to_lower c ∷ []) (flush word words) s in
    let longer = extract_loop (word ++ c ∷ []) words s in
    if is_delimiter c
    then ended
    else if is_upper c && (not (is_nil word) && is_lower (last_byte word))
    then split_here
    else longer

unfoldable pub split_identifiers : Bytes → Bytes → Bytes
unfolding extract_loop
split_identifiers heading siblings =
    foldl (glue (codes " ")) [] (extract_loop [] (extract_loop [] [] heading) siblings)

-- The expansions of the terms that the upper-case text contains.
unfoldable pub expansions : Bytes → Dict Bytes → Bytes → Bytes
expansions upper_text [] result = result
expansions upper_text ((term, expansion) ∷ glossary) result = expansions upper_text glossary (
    if contains upper_text (map to_upper term)
    then glue (codes ". ") result (term ++ codes ": " ++ expansion)
    else result)

-- A part of the text in its brackets, left out where it is empty.
abbrev pub bracketed : Bytes → Bytes → Bytes → Bytes
bracketed front s back = if is_nil s then [] else front ++ s ++ back

-- " \xC2\xA7 ".
abbrev section_mark : Bytes
section_mark = 0x20 ∷ 0xC2 ∷ 0xA7 ∷ 0x20 ∷ []

unfoldable pub enrich_embed_text : Bytes → Bytes → Bytes → Bytes → Bytes → Dict Bytes → Bytes
unfolding split_identifiers expansions
enrich_embed_text rel_path heading content dir_context siblings glossary =
    let around = dir_context ++ bracketed (codes " (also: ") siblings (codes ")") in
    let before = bracketed [] around (codes ": ") in
    let split_words = split_identifiers heading siblings in
    let upper_text = map to_upper (heading ++ codes " " ++ split_words ++ codes " " ++ content) in
    before
    ++ rel_path
    ++ bracketed section_mark heading []
    ++ codes ". "
    ++ content
    ++ bracketed (codes " [") split_words (codes "]")
    ++ bracketed (codes " {") (expansions upper_text glossary []) (codes "}")

-- The directories that say something.
unfoldable pub is_telling : Bytes → Bool
is_telling part = not (
    is_nil part
    || (str_eq part (codes "src")
        || (str_eq part (codes "lib")
            || (str_eq part (codes "services")
                || (str_eq part (codes "backend") || str_eq part (codes "frontend"))))))

-- The last two of them, with a slash between. The empty piece that std::getline does not yield
-- behind a last slash is dropped by the test.
unfoldable pub dir_context : Bytes → Bytes
unfolding is_telling
dir_context rel_path =
    let dir : Bytes = elim (rfind b'/' rel_path) [ some slash ↦ take slash rel_path | none ↦ [] ] in
    let parts = keep is_telling (split b'/' dir) in
    foldl (glue (codes "/")) [] (drop (length parts - 2) parts)

-- The headings of the other chunks, up to the first place behind 200 bytes.
unfoldable pub siblings_of : Bytes → List Chunk → Bytes → Bytes
siblings_of heading [] siblings = siblings
siblings_of heading (s ∷ chunks) siblings =
    let skipped = siblings_of heading chunks siblings in
    let more = glue (codes ", ") siblings s.heading in
    let going_on = siblings_of heading chunks more in
    if is_nil s.heading || str_eq s.heading heading
    then skipped
    else if ltb 200 (length more)
    then more
    else going_on
