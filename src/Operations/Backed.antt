-- ===== src/Operations/Backed.antt =====
-- The entries of an index and the notes of its database, over sequences of op_add and op_rm.
use gogol.Prelude.{
  ℕ, ◌≡◌, ◌≢◌, refl, sym, ap, ◌∙◌, Bool, true, false, not, ◌&&◌, Option, none, some, List, [], ◌∷◌,
  if◌then◌else◌, is_nil, keep, ◌==◌, All, All-append, All-mono, Bool-cases, Option-cases, inl, inr,
}
use gogol.Text.{Bytes, str_eq, str_eq_refl}
use gogol.Dict.{Dict, get, put, erase, get-put, get-erase}
use gogol.Dict.Order.{is_sorted, is_sorted-put, is_sorted-erase, distinct_keys-is_sorted}
use gogol.Loc.{EntryType}
use gogol.Storage.Index.{IndexEntry, Index}
use gogol.Storage.Sqlite.{Database}
use gogol.Storage.Sqlite.Entries.{proto_code}
use gogol.Storage.Sqlite.Keyed.{MemEntry, load_mem, save_mem, load_glossary, save_glossary}
use gogol.Adapters.Notes.{note_text, mem_add, mem_remove}
use gogol.Adapters.Files.{FileSystem}
use gogol.Operations.{
  Embedder, World, set_db, add_term, add_note, rm_term, rm_note, replace_entry, erase_entries,
}
use gogol.Operations.Notes.{sources_of}
use gogol.Operations.Terms.{mem-is_sorted, glossary-is_sorted}
use gogol.Operations.Tables.{get-save_glossary, get-save_mem-none}

module _ {ℓ} {A : Type ℓ} (P : A → Type 0) where
  -- What a test keeps has the property, where it follows from the test as well.
  All-keep :
      {Q : A → Type 0} (p : A → Bool)
      → ((x : A) → p x ≡ true → Q x → P x)
      → (xs : List A) → All Q xs
      → All P (keep p xs)
  All-keep p each [] h = tt
  All-keep p each (x ∷ xs) h = elim (Bool-cases (p x)) [
    | inl hit ↦ rw hit (each x hit h.0, All-keep p each xs h.1)
    | inr miss ↦ rw miss (All-keep p each xs h.1)
  ]

some-none {ℓ} : {A : Type ℓ} (a : A) → some a ≢ none
some-none a e = cc

if-none {ℓ} :
    {A : Type ℓ} (b : Bool) (a : A) (o : Option A) → (if b then some a else o) ≡ none → o ≡ none
if-none true a o e = absurd (some-none a e)
if-none false a o e = e

if-other {ℓ} : {A : Type ℓ} (b : Bool) (o : Option A) → b ≡ false → (if b then none else o) ≡ o
if-other true o h = cc
if-other false o h = refl

apart :
    (proto : EntryType) (same_path : Bool)
    → proto ≡ EntryType.note
    → not (proto_code proto == proto_code EntryType.note && same_path) ≡ true
    → same_path ≡ false
unfolding proto_code
apart EntryType.note true note kept = cc
apart EntryType.note false note kept = refl
apart EntryType.doc same_path note kept = cc
apart EntryType.term same_path note kept = cc

module _ (sqlite : Database) (system : FileSystem) (name : Bytes) where
  abbrev pub Worlds : Type 0
  Worlds = World sqlite system

  -- An entry of a note has its note in the database of the index.
  abbrev pub IsBacked : Worlds → IndexEntry → Type 0
  IsBacked w e = e.proto ≡ EntryType.note → get e.path (load_mem sqlite (w.dbs name)) ≢ none

  abbrev pub AreBacked : Index × Worlds → Type 0
  AreBacked (index, w) = All (IsBacked w) index.entries

  -- No note is lost.
  abbrev pub Grows : Worlds → Worlds → Type 0
  Grows w w' =
      (key : Bytes)
      → get key (load_mem sqlite (w'.dbs name)) ≡ none
      → get key (load_mem sqlite (w.dbs name)) ≡ none

  pub grown :
      (w w' : Worlds) (entries : List IndexEntry)
      → Grows w w'
      → All (IsBacked w) entries
      → All (IsBacked w') entries
  grown w w' entries grows h = All-mono (λ e b note lost. b note (grows e.path lost)) entries h

  pub replaced :
      (w : Worlds) (dim : ℕ) (entry : IndexEntry) (index : Index)
      → All (IsBacked w) index.entries
      → IsBacked w entry
      → All (IsBacked w) (replace_entry dim entry index).entries
  unfolding replace_entry erase_entries
  replaced w dim entry index h new =
      All-append (IsBacked w) (erase_entries entry.proto entry.path index.entries) (entry ∷ [])
        (All-keep (IsBacked w)
          (λ e. not (proto_code e.proto == proto_code entry.proto && str_eq e.path entry.path))
          (λ e hit b. b) index.entries h)
        (new, tt)

  set_db-name : (db : sqlite.Db) (w : Worlds) → (set_db sqlite system name db w).dbs name ≡ db
  unfolding set_db
  set_db-name db w = rw (str_eq_refl name) refl

  glossary-Grows :
      (m : Dict Bytes) (w : Worlds)
      → is_sorted m ≡ true
      → Grows w (set_db sqlite system name (save_glossary sqlite m (w.dbs name)) w)
  glossary-Grows m w h key =
      rw (set_db-name (save_glossary sqlite m (w.dbs name)) w)
        (get-save_glossary sqlite m (w.dbs name) (distinct_keys-is_sorted m h) key)

  pub add_term-Grows :
      (topic content : Bytes) (w : Worlds) → Grows w (add_term sqlite system name topic content w).1
  unfolding add_term
  add_term-Grows topic content w =
      glossary-Grows (put topic content (load_glossary sqlite (w.dbs name))) w
        (is_sorted-put topic content _ (glossary-is_sorted sqlite (w.dbs name)))

  pub rm_term-Grows : (topic : Bytes) (w : Worlds) → Grows w (rm_term sqlite system name topic w).1
  unfolding rm_term
  rm_term-Grows topic w = elim (Option-cases (get topic (load_glossary sqlite (w.dbs name)))) [
    | inl absent ↦ rw (absent, rm_term) (λ key e. e)
    | inr (expansion, found) ↦
        rw (found, rm_term)
          (glossary-Grows (erase topic (load_glossary sqlite (w.dbs name))) w
            (is_sorted-erase topic _ (glossary-is_sorted sqlite (w.dbs name))))
  ]

  pub AreBacked-add_note :
      (clock : ℕ × ℕ) (embedder : Embedder) (topic content sources : Bytes) (index : Index)
      (w : Worlds)
      → AreBacked (index, w)
      → (let (r, index', w') =
            add_note sqlite system clock embedder name topic content sources index w in
          AreBacked (index', w'))
  unfolding add_note mem_add
  AreBacked-add_note (now, later) embedder topic content sources index w h =
      let entry : MemEntry = record {
        content = content;
        sources = sources_of sources;
        timestamp = now;
      } in
      let notes = load_mem sqlite (w.dbs name) in
      let db = save_mem sqlite (put topic entry notes) (w.dbs name) in
      let w' = set_db sqlite system name db w in
      let found : (key : Bytes)
          → get key (load_mem sqlite (w'.dbs name)) ≡ none
          → (if str_eq key topic then some entry else get key notes) ≡ none =
        λ key lost.
          sym (get-put key topic entry notes)
          ∙ get-save_mem-none sqlite (put topic entry notes) (w.dbs name)
              (is_sorted-put topic entry notes (mem-is_sorted sqlite (w.dbs name))) key
              (sym (ap (λ d. get key (load_mem sqlite d)) (set_db-name db w)) ∙ lost) in
      let grows : Grows w w' = λ key lost. if-none (str_eq key topic) entry _ (found key lost) in
      let old = grown w w' index.entries grows h in
      let here : (if str_eq topic topic then some entry else get topic notes) ≡ some entry =
        rw (str_eq_refl topic) refl in
      let new : get topic (load_mem sqlite (w'.dbs name)) ≢ none =
        λ lost. some-none entry (sym here ∙ found topic lost) in
      elim (Bool-cases (is_nil (embedder.embed_document (note_text topic content)))) [
        | inl empty ↦ rw empty old
        | inr full ↦ rw full (
            replaced w' embedder.dim
              (record {
                proto = EntryType.note;
                path = topic;
                chunk = topic;
                line = 0;
                end_line = 0;
                hash = later;
                embedding = embedder.embed_document (note_text topic content);
              })
              index old (λ note. new))
      ]

  pub AreBacked-rm_note :
      (topic : Bytes) (index : Index) (w : Worlds)
      → AreBacked (index, w)
      → (let (r, index', w') = rm_note sqlite system name topic index w in AreBacked (index', w'))
  unfolding rm_note mem_remove erase_entries proto_code
  AreBacked-rm_note topic index w h =
      elim (Option-cases (get topic (load_mem sqlite (w.dbs name)))) [
        | inl absent ↦ rw (absent, mem_remove) h
        | inr (e, there) ↦
            let notes = load_mem sqlite (w.dbs name) in
            let db = save_mem sqlite (erase topic notes) (w.dbs name) in
            let w' = set_db sqlite system name db w in
            rw (there, mem_remove)
              (All-keep (IsBacked w') {Q = IsBacked w}
                (λ e. not (proto_code e.proto == proto_code EntryType.note && str_eq e.path topic))
                (λ e kept b note lost.
                  let other : str_eq e.path topic ≡ false =
                    apart e.proto (str_eq e.path topic) note kept in
                  b note (
                    sym (
                      get-erase e.path topic notes
                      ∙ if-other (str_eq e.path topic) (get e.path notes) other)
                    ∙ get-save_mem-none sqlite (erase topic notes) (w.dbs name)
                        (is_sorted-erase topic notes (mem-is_sorted sqlite (w.dbs name))) e.path
                        (sym (ap (λ d. get e.path (load_mem sqlite d)) (set_db-name db w)) ∙ lost)))
                index.entries h)
      ]
