-- ===== src/Rpc/Buffer/Wire.antt =====
-- Fields on the wire: the bytes that the put calls of MsgWriter write, and that each get call reads
-- its kind of field back, wherever it stands.
use gogol.Prelude.{
  ℕ, suc, ◌+◌, ◌%◌, ◌^◌, ◌≤◌, ◌<◌, ◌≡◌, refl, sym, ap, subst, ◌∙◌, Option, some, List, [], ◌∷◌,
  ◌++◌, append-nil, append_assoc, arith, inl, inr, length, take, drop, All, All-append,
  length-append, length-drop, take-length_append, drop-length_append, drop-drop,
}
use gogol.Text.{Bytes}
use gogol.Rpc.Buffer.{
  MsgWriter, MsgReader, le32, le_value, put_u8, put_u32, put_float, put_str, get_u8, get_u32,
  get_float, get_str,
}
use gogol.Rpc.Buffer.Bounds.{
  InBounds, behind, Reads, ReadsStr, first_byte, get_u8-Reads, get_u32-Reads, get_float-Reads,
  get_str-Reads,
}

pub data Field : Type 0 where
  u8 : ℕ → Field
  u32 : ℕ → Field
  float : ℕ → Field
  str : Bytes → Field

-- The values that the C++ types hold.
abbrev pub IsField : Field → Type 0
IsField (Field.u8 v) = v < 256
IsField (Field.u32 v) = v < 2 ^ 32
IsField (Field.float v) = v < 2 ^ 32
IsField (Field.str s) = (length s < 2 ^ 32) × All (λ b. b < 256) s

unfoldable pub put : Field → MsgWriter → MsgWriter
put (Field.u8 v) = put_u8 v
put (Field.u32 v) = put_u32 v
put (Field.float v) = put_float v
put (Field.str s) = put_str s

unfoldable pub put_all : List Field → MsgWriter → MsgWriter
put_all [] w = w
put_all (f ∷ fs) w = put_all fs (put f w)

-- The bytes of a field on the wire.
unfoldable pub encode : Field → Bytes
encode (Field.u8 v) = v ∷ []
encode (Field.u32 v) = le32 v
encode (Field.float v) = le32 v
encode (Field.str s) = le32 (length s) ++ s

pub put-encode : (f : Field) (w : MsgWriter) → IsField f → (put f w).buf ≡ w.buf ++ encode f
unfolding put encode put_u8 put_u32 put_float put_str
put-encode (Field.u8 v) w h = refl
put-encode (Field.u32 v) w h = refl
put-encode (Field.float v) w h = refl
put-encode (Field.str []) w h = rw append-nil
put-encode (Field.str (x ∷ s)) w h = rw (cut, append_assoc)
  where
    cut : suc (length s) % 2 ^ 32 ≡ suc (length s)
    cut = omega arith

pub le_value-le32 : (v : ℕ) → v < 2 ^ 32 → le_value (le32 v) ≡ v
unfolding le_value le32
le_value-le32 v h = omega arith

-- What stands at the position of a reader.
module _ (r : MsgReader) (e rest : Bytes) (here : drop r.pos r.content ≡ e ++ rest) where
  taken : take (length e) (drop r.pos r.content) ≡ e
  taken = rw here (take-length_append e rest)

  fits_here : InBounds r → r.pos + length e ≤ length r.content
  fits_here b = omega (arith, ap length here, length-append e rest, length-drop r.pos r.content)

  rest_here : drop (r.pos + length e) r.content ≡ rest
  rest_here =
      sym (drop-drop (length e) r.pos r.content)
      ∙ ap (drop (length e)) here
      ∙ drop-length_append e rest

  read_here :
      {A : Type 0} (value : Bytes → A) (result : Option A × MsgReader)
      → InBounds r
      → Reads r (length e) value result
      → result ≡ (some (value e), record r { pos = r.pos + length e })
  read_here value result b (inl (short, _)) = absurd (omega (arith, fits_here b))
  read_here value result b (inr (_, eq)) =
      eq ∙ ap (λ t. (some (value t), record r { pos = r.pos + length e })) taken

abbrev behind_word : MsgReader → MsgReader
behind_word r = record r { pos = r.pos + 4 }

str_here :
    (r : MsgReader) (s rest : Bytes) (result : Option Bytes × MsgReader)
    → drop r.pos r.content ≡ (le32 (length s) ++ s) ++ rest
    → InBounds r
    → length s < 2 ^ 32
    → ReadsStr r result
    → result ≡ (some s, record r { pos = r.pos + length (le32 (length s) ++ s) })
unfolding le32
str_here r s rest result here b h (inl (short, _)) =
    absurd (omega (arith, fits_here r (le32 (length s) ++ s) rest here b))
str_here r s rest result here b h (inr (there, inner)) =
    let head : drop r.pos r.content ≡ le32 (length s) ++ (s ++ rest) = here in
    let len : le_value (take 4 (drop r.pos r.content)) ≡ length s =
      ap le_value (taken r (le32 (length s)) (s ++ rest) head) ∙ le_value-le32 (length s) h in
    read_here (behind_word r) s rest (rest_here r (le32 (length s)) (s ++ rest) head) (λ t. t)
      result (behind b 4 there) (subst (λ n. Reads (behind_word r) n (λ t. t) result) len inner)
    ∙ ap (λ n. (some s, record r { pos = n })) (omega arith)

-- The reader behind a field.
abbrev pub skip : Field → MsgReader → MsgReader
skip f r = record r { pos = r.pos + length (encode f) }

pub skip-here :
    (f : Field) (r : MsgReader) (rest : Bytes)
    → InBounds r
    → drop r.pos r.content ≡ encode f ++ rest
    → InBounds (skip f r) × (drop (skip f r).pos r.content ≡ rest)
skip-here f r rest b here = (
  behind b (length (encode f)) (fits_here r (encode f) rest here b),
  rest_here r (encode f) rest here,
)

-- Each get call reads a field of its kind back, wherever it stands.
module _ (r : MsgReader) (rest : Bytes) (b : InBounds r) where
  pub get_u8-here :
      (v : ℕ) → drop r.pos r.content ≡ v ∷ rest → get_u8 r ≡ (some v, skip (Field.u8 v) r)
  unfolding encode
  get_u8-here v here = read_here r (v ∷ []) rest here first_byte _ b (get_u8-Reads b)

  word_here :
      (v : ℕ) (result : Option ℕ × MsgReader)
      → v < 2 ^ 32
      → drop r.pos r.content ≡ le32 v ++ rest
      → Reads r 4 le_value result
      → result ≡ (some v, skip (Field.u32 v) r)
  unfolding encode le32
  word_here v result h here reads =
      read_here r (le32 v) rest here le_value result b reads
      ∙ ap (λ n. (some n, behind_word r)) (le_value-le32 v h)

  pub get_u32-here :
      (v : ℕ)
      → v < 2 ^ 32
      → drop r.pos r.content ≡ le32 v ++ rest
      → get_u32 r ≡ (some v, skip (Field.u32 v) r)
  get_u32-here v h here = word_here v _ h here (get_u32-Reads b)

  pub get_float-here :
      (v : ℕ)
      → v < 2 ^ 32
      → drop r.pos r.content ≡ le32 v ++ rest
      → get_float r ≡ (some v, skip (Field.float v) r)
  unfolding encode
  get_float-here v h here = word_here v _ h here (get_float-Reads b)

  pub get_str-here :
      (s : Bytes)
      → length s < 2 ^ 32
      → drop r.pos r.content ≡ (le32 (length s) ++ s) ++ rest
      → get_str r ≡ (some s, skip (Field.str s) r)
  unfolding encode
  get_str-here s h here = str_here r s rest _ here b h (get_str-Reads b)

unfoldable pub encode_all : List Field → Bytes
encode_all [] = []
encode_all (f ∷ fs) = encode f ++ encode_all fs

pub put_all-encode_all :
    (fs : List Field) (w : MsgWriter) → All IsField fs → (put_all fs w).buf ≡ w.buf ++ encode_all fs
unfolding put_all encode_all
put_all-encode_all [] w h = rw append-nil
put_all-encode_all (f ∷ fs) w h =
    put_all-encode_all fs (put f w) h.1 ∙ rw (put-encode f w h.0, append_assoc)

encode-bytes : (f : Field) → IsField f → All (λ b. b < 256) (encode f)
unfolding encode le32
encode-bytes (Field.u8 v) h = (h, tt)
encode-bytes (Field.u32 v) h = omega arith
encode-bytes (Field.float v) h = omega arith
encode-bytes (Field.str s) h = All-append (λ b. b < 256) (le32 (length s)) s (omega arith) h.1

pub encode_all-bytes : (fs : List Field) → All IsField fs → All (λ b. b < 256) (encode_all fs)
unfolding encode_all
encode_all-bytes [] h = tt
encode_all-bytes (f ∷ fs) h =
    All-append (λ b. b < 256) (encode f) (encode_all fs) (encode-bytes f h.0)
      (encode_all-bytes fs h.1)

abbrev pub no_bytes : MsgWriter
no_bytes = record { buf = [] }

abbrev pub reader : Bytes → MsgReader
reader s = record { content = s; pos = 0 }
