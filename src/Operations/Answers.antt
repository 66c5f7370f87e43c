-- ===== src/Operations/Answers.antt =====
-- What op_get finds behind op_add and op_rm, for every index, term and note.
use gogol.Prelude.{
  ℕ, ◌≡◌, refl, Bool, true, false, ◌&&◌, Option, none, some, List, if◌then◌else◌, is_nil,
  Bool-cases, Option-cases, inl, inr,
}
use gogol.Text.{Bytes, codes, str_eq, str_eq_iff}
use gogol.Dict.{Dict, get, put, erase}
use gogol.Loc.{EntryType}
use gogol.Config.{IndexConfig}
use gogol.Chunking.{Chunk}
use gogol.Protocol.{type_code}
use gogol.Storage.Index.{Index}
use gogol.Storage.Sqlite.{Database}
use gogol.Storage.Sqlite.Keyed.{load_glossary, save_glossary}
use gogol.Adapters.Files.{FileSystem}
use gogol.Operations.{
  OpResult, failed, done, Embedder, World, set_db, op_add, op_rm, op_get, add_term, rm_term,
}
use gogol.Operations.Terms.{get-put_term, get-erase_term}

-- What op_get makes of a term that is looked up.
abbrev pub answer : Option Bytes → OpResult
answer none = failed (codes "Not found")
answer (some expansion) = done expansion

-- One place of a table by two keys changed.
abbrev pub changed {ℓ} : {A : Type ℓ} → Bool → Bool → A → A → A
changed same_index same_key new old = if same_index && same_key then new else old

answer-changed :
    (same_index same_key : Bool) (new old : Option Bytes)
    → answer (changed same_index same_key new old)
      ≡ changed same_index same_key (answer new) (answer old)
answer-changed false same_key new old = refl
answer-changed true false new old = refl
answer-changed true true new old = refl

module _ (sqlite : Database) (system : FileSystem)
    (chunk_file : Bytes → Bytes → Bytes → List Chunk) where
  abbrev pub Worlds : Type 0
  Worlds = World sqlite system

  -- The glossary of each index, by term.
  abbrev pub term_of : Bytes → Bytes → Worlds → Option Bytes
  term_of other term w = get term (load_glossary sqlite (w.dbs other))

  op_get-term :
      (other term : Bytes) (config : IndexConfig) (max_lines : ℕ) (w : Worlds)
      → is_nil other ≡ false
      → op_get sqlite system chunk_file (type_code EntryType.term) other term config max_lines w
        ≡ answer (term_of other term w)
  unfolding op_get
  op_get-term other term config max_lines w h =
      elim (get term (load_glossary sqlite (w.dbs other)))
        as (λ found.
          (if is_nil other then failed (codes "No index specified") else (elim found [
            | some expansion ↦ done expansion
            | none ↦ failed (codes "Not found")
          ]))
          ≡ answer found) [ none ↦ rw h refl | some e ↦ rw h refl ]

  term_of-set_db :
      (name topic : Bytes) (v : Option Bytes) (m : Dict Bytes) (w : Worlds)
      → ((term : Bytes)
          → get term (load_glossary sqlite (save_glossary sqlite m (w.dbs name)))
            ≡ (if str_eq term topic then v else term_of name term w))
      → (other term : Bytes)
      → term_of other term (set_db sqlite system name (save_glossary sqlite m (w.dbs name)) w)
        ≡ changed (str_eq other name) (str_eq term topic) v (term_of other term w)
  unfolding set_db
  term_of-set_db name topic v m w each other term = elim (Bool-cases (str_eq other name)) [
    | inl same ↦ rw same (rw ((str_eq_iff other name).0 same) (each term))
    | inr apart ↦ rw apart refl
  ]

  term_of-rm_term :
      (name topic : Bytes) (w : Worlds) (other term : Bytes)
      → term_of other term (rm_term sqlite system name topic w).1
        ≡ changed (str_eq other name) (str_eq term topic) none (term_of other term w)
  unfolding rm_term
  term_of-rm_term name topic w other term =
      let m = erase topic (load_glossary sqlite (w.dbs name)) in
      elim (Option-cases (get topic (load_glossary sqlite (w.dbs name)))) [
        | inl absent ↦
            rw (absent, rm_term)
              (elim (Bool-cases (str_eq other name)) [
                | inl same ↦ elim (Bool-cases (str_eq term topic)) [
                  | inl hit ↦
                      rw (same, hit, (str_eq_iff other name).0 same, (str_eq_iff term topic).0 hit)
                        absent
                  | inr miss ↦ rw (same, miss) refl
                ]
                | inr apart ↦ rw apart refl
              ])
        | inr (expansion, found) ↦
            rw (found, rm_term)
              (term_of-set_db name topic none m w (get-erase_term sqlite (w.dbs name) topic) other
                term)
      ]

  -- In indexes whose names are not empty: a term that is added is the one that op_get finds at its
  -- name in its index; what it finds at other names and in other indexes stays.
  pub op_get-op_add_term :
      (clock : ℕ × ℕ) (embedder : Embedder) (name topic content sources : Bytes)
      (config : IndexConfig) (index : Index) (w : Worlds) (other term : Bytes) (max_lines : ℕ)
      → is_nil name ≡ false
      → is_nil other ≡ false
      → (let (r, index', w') =
            op_add sqlite system clock embedder chunk_file
              (type_code EntryType.term)
              name
              topic
              content
              sources
              config
              index
              w in
          op_get sqlite system chunk_file (type_code EntryType.term) other term config max_lines w')
        ≡ changed (str_eq other name) (str_eq term topic) (done content) (
            op_get sqlite system chunk_file
              (type_code EntryType.term)
              other
              term
              config
              max_lines
              w)
  unfolding op_add add_term
  op_get-op_add_term clock embedder name topic content sources config index w other term max_lines h
        o =
      let m = put topic content (load_glossary sqlite (w.dbs name)) in
      let w' = set_db sqlite system name (save_glossary sqlite m (w.dbs name)) w in
      rw
        (
          h,
          op_get-term other term config max_lines w' o,
          op_get-term other term config max_lines w o,
          term_of-set_db name topic (some content) m w
              (get-put_term sqlite (w.dbs name) topic content) other term,
        )
        (answer-changed (str_eq other name) (str_eq term topic) (some content)
          (term_of other term w))

  -- A term that is removed is not found at its name; what op_get finds elsewhere stays.
  pub op_get-op_rm_term :
      (name topic : Bytes) (config : IndexConfig) (index : Index) (w : Worlds) (other term : Bytes)
      (max_lines : ℕ)
      → is_nil name ≡ false
      → is_nil other ≡ false
      → (let (r, index', w') =
            op_rm sqlite system chunk_file (type_code EntryType.term) name topic config index w in
          op_get sqlite system chunk_file (type_code EntryType.term) other term config max_lines w')
        ≡ changed (str_eq other name) (str_eq term topic) (failed (codes "Not found")) (
            op_get sqlite system chunk_file
              (type_code EntryType.term)
              other
              term
              config
              max_lines
              w)
  unfolding op_rm
  op_get-op_rm_term name topic config index w other term max_lines h o =
      let w' = (rm_term sqlite system name topic w).1 in
      rw
        (
          h,
          op_get-term other term config max_lines w' o,
          op_get-term other term config max_lines w o,
          term_of-rm_term name topic w other term,
        )
        (answer-changed (str_eq other name) (str_eq term topic) none (term_of other term w))
