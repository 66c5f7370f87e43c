-- ===== src/Storage/Sqlite/Embeddings.antt =====
-- The embeddings of the entries, from their vectors to their BLOBs and back.
use gogol.Prelude.{
  ℕ, ◌-◌, ◌^◌, ◌≤◌, ◌<◌, ◌≡◌, refl, ap, ap₂, ◌∙◌, false, ◌&&◌, List, [], ◌∷◌, map, ltb, leb,
  if◌then◌else◌, is_nil, length, take, arith, All, All-take, lt→ltb, ltb→lt, Bool-cases, inl, inr,
  length-take, take-all, append-nil, length-map,
}
use gogol.Config.Global.{EmbedPrecision}
use gogol.Rpc.Buffer.{le32}
use gogol.Storage.Half.{float_to_f16, f16_to_float}
use gogol.Storage.Sqlite.{Value, Database}
use gogol.Storage.Sqlite.Kept.{and-left, and-right}
use gogol.Storage.Sqlite.Entries.{
  half_bytes, halves, float_bytes, floats, embedding_value, resized, embedding_of_blob,
}

halves-half_bytes : (hs : List ℕ) → All (λ h. h < 2 ^ 16) hs → halves (half_bytes hs) ≡ hs
unfolding halves half_bytes
halves-half_bytes [] h = refl
halves-half_bytes (x ∷ hs) h = ap₂ ◌∷◌ (omega (arith, h.0)) (halves-half_bytes hs h.1)

floats-float_bytes : (xs : List ℕ) → All (λ x. x < 2 ^ 32) xs → floats (float_bytes xs) ≡ xs
unfolding floats float_bytes le32
floats-float_bytes [] h = refl
floats-float_bytes (x ∷ xs) h = ap₂ ◌∷◌ (omega (arith, h.0)) (floats-float_bytes xs h.1)

float_to_f16-lt : (x : ℕ) → x < 2 ^ 32 → float_to_f16 x < 2 ^ 16
unfolding float_to_f16
float_to_f16-lt x h = ground arith

-- What is left of an embedding: nothing where it is shorter than the dimension, else its front in
-- the precision of the index.
unfoldable pub stored_embedding : ℕ → EmbedPrecision → List ℕ → List ℕ
stored_embedding dim precision e =
    if ltb 0 dim && leb dim (length e)
    then elim precision [
      | EmbedPrecision.f16 ↦ map (λ x. f16_to_float (float_to_f16 x)) (take dim e)
      | EmbedPrecision.f32 ↦ take dim e
    ]
    else []

resized-full : (dim : ℕ) (xs : List ℕ) → length xs ≡ dim → resized dim xs ≡ xs
unfolding resized
resized-full dim xs e =
    let whole : take dim xs ≡ xs = take-all dim xs (omega arith) in
    let none_left : dim - length xs ≡ 0 = omega arith in rw (whole, none_left) (append-nil xs)

half_bytes-full : (xs : List ℕ) → 0 < length xs → is_nil (half_bytes xs) ≡ false
unfolding half_bytes
half_bytes-full [] h = absurd (omega (arith, h))
half_bytes-full (x ∷ xs) h = refl

float_bytes-full : (xs : List ℕ) → 0 < length xs → is_nil (float_bytes xs) ≡ false
unfolding float_bytes le32
float_bytes-full [] h = absurd (omega (arith, h))
float_bytes-full (x ∷ xs) h = refl

map-float_to_f16-lt :
    (xs : List ℕ) → All (λ x. x < 2 ^ 32) xs → All (λ h. h < 2 ^ 16) (map float_to_f16 xs)
map-float_to_f16-lt [] h = tt
map-float_to_f16-lt (x ∷ xs) h = (float_to_f16-lt x h.0, map-float_to_f16-lt xs h.1)

map-map {ℓ} :
    {A B C : Type ℓ} (g : B → C) (f : A → B) (xs : List A)
    → map g (map f xs) ≡ map (λ x. g (f x)) xs
map-map g f [] = refl
map-map g f (x ∷ xs) = ap (◌∷◌ (g (f x))) (map-map g f xs)

pub embedding_blank :
    (dim : ℕ) (precision : EmbedPrecision) → embedding_of_blob dim precision [] ≡ []
unfolding embedding_of_blob
embedding_blank dim precision = elim (Bool-cases (ltb 0 dim)) [
  | inl e ↦ rw e refl
  | inr e ↦ rw e refl
]

module _ (dim : ℕ) (e : List ℕ) (words : All (λ x. x < 2 ^ 32) e) (positive : 0 < dim)
    (long : dim ≤ length e) where
  size : length (take dim e) ≡ dim
  size = omega (arith, length-take dim e)

  words_front : All (λ x. x < 2 ^ 32) (take dim e)
  words_front = All-take (λ x. x < 2 ^ 32) dim e words

  floats_back : embedding_of_blob dim EmbedPrecision.f32 (float_bytes (take dim e)) ≡ take dim e
  unfolding embedding_of_blob
  floats_back =
      let full : is_nil (float_bytes (take dim e)) ≡ false =
        float_bytes-full _ (omega (arith, size)) in
      rw (lt→ltb 0 dim positive, full)
        (ap (resized dim) (floats-float_bytes (take dim e) words_front) ∙ resized-full dim _ size)

  halves_back :
      embedding_of_blob dim EmbedPrecision.f16 (half_bytes (map float_to_f16 (take dim e)))
      ≡ map (λ x. f16_to_float (float_to_f16 x)) (take dim e)
  unfolding embedding_of_blob
  halves_back =
      let hs = map float_to_f16 (take dim e) in
      let full : is_nil (half_bytes hs) ≡ false =
        half_bytes-full hs (omega (arith, size, length-map float_to_f16 (take dim e))) in
      rw (lt→ltb 0 dim positive, full)
        (ap (λ xs. resized dim (map f16_to_float xs))
            (halves-half_bytes hs (map-float_to_f16-lt (take dim e) words_front))
          ∙ resized-full dim _
              (length-map f16_to_float hs ∙ length-map float_to_f16 (take dim e) ∙ size)
          ∙ map-map f16_to_float float_to_f16 (take dim e))

module _ (sqlite : Database) where
  open sqlite use {Db, rows, as_int, as_text, as_blob, select, replace, delete}

  pub embedding_back :
      (dim : ℕ) (precision : EmbedPrecision) (e : List ℕ)
      → All (λ x. x < 2 ^ 32) e
      → embedding_of_blob dim precision (as_blob (embedding_value dim precision e))
        ≡ stored_embedding dim precision e
  unfolding embedding_value stored_embedding
  embedding_back dim precision e h = elim (Bool-cases (ltb 0 dim && leb dim (length e))) [
    | inr short ↦ rw (short, sqlite.as_blob-null) (embedding_blank dim precision)
    | inl long ↦
        let positive : 0 < dim = ltb→lt 0 dim (and-left (ltb 0 dim) (leb dim (length e)) long) in
        let enough : dim ≤ length e =
          ground (arith, and-right (ltb 0 dim) (leb dim (length e)) long) in
        rw long
          (elim precision
            as (λ p.
              embedding_of_blob dim p (
                as_blob (elim p [
                  | EmbedPrecision.f16 ↦ Value.blob (half_bytes (map float_to_f16 (take dim e)))
                  | EmbedPrecision.f32 ↦ Value.blob (float_bytes (take dim e))
                ]))
              ≡ (elim p [
                | EmbedPrecision.f16 ↦ map (λ x. f16_to_float (float_to_f16 x)) (take dim e)
                | EmbedPrecision.f32 ↦ take dim e
              ])) [
                | EmbedPrecision.f32 ↦ rw sqlite.as_blob-blob (floats_back dim e h positive enough)
                | EmbedPrecision.f16 ↦ rw sqlite.as_blob-blob (halves_back dim e h positive enough)
              ])
  ]
