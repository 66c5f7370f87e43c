-- ===== src/Protocol/Serving.antt =====
-- A reader that stands before fields on the wire reads them in order, by whatever get calls.
use gogol.Prelude.{
  ◌+◌, ◌^◌, ◌≤◌, ◌≡◌, sym, ap, ◌∙◌, some, List, [], ◌∷◌, ◌++◌, append_assoc, append-nil, arith,
  length, drop, All, subst,
}
use gogol.Text.{Bytes}
use gogol.Rpc.Buffer.{MsgWriter, MsgReader, get_u8, get_u32, get_float, get_str}
use gogol.Rpc.Buffer.Bounds.{InBounds}
use gogol.Rpc.Buffer.Wire.{
  Field, IsField, encode, encode_all, put_all, put_all-encode_all, encode_all-bytes, skip,
  skip-here, no_bytes, reader, get_u8-here, get_u32-here, get_float-here, get_str-here,
}

-- Where the reader stands: in bounds, before these bytes.
pub record Stands (r : MsgReader) (s : Bytes) : Type 0 where
  pub bounds : InBounds r
  pub here : drop r.pos r.content ≡ s

-- The call that reads a field gives its value and moves behind it.
abbrev pub Gives : Field → MsgReader → Type 0
Gives (Field.u8 v) r = get_u8 r ≡ (some v, skip (Field.u8 v) r)
Gives (Field.u32 v) r = get_u32 r ≡ (some v, skip (Field.u32 v) r)
Gives (Field.float v) r = get_float r ≡ (some v, skip (Field.float v) r)
Gives (Field.str s) r = get_str r ≡ (some s, skip (Field.str s) r)

abbrev pub skip_all : List Field → MsgReader → MsgReader
skip_all [] r = r
skip_all (f ∷ fs) r = skip_all fs (skip f r)

abbrev pub Serves : List Field → MsgReader → Type 0
Serves [] r = Unit
Serves (f ∷ fs) r = Gives f r × Serves fs (skip f r)

module _ {r : MsgReader} (rest : Bytes) where
  gives : (f : Field) → IsField f → Stands r (encode f ++ rest) → Gives f r
  unfolding encode
  gives (Field.u8 v) h st = get_u8-here r rest st.bounds v st.here
  gives (Field.u32 v) h st = get_u32-here r rest st.bounds v h st.here
  gives (Field.float v) h st = get_float-here r rest st.bounds v h st.here
  gives (Field.str s) h st = get_str-here r rest st.bounds s h.0 st.here

  Stands-skip : (f : Field) → Stands r (encode f ++ rest) → Stands (skip f r) rest
  Stands-skip f st =
      let (b, e) = skip-here f r rest st.bounds st.here in record { bounds = b; here = e }

pub serves :
    (fs : List Field) {r : MsgReader} (rest : Bytes)
    → All IsField fs
    → Stands r (encode_all fs ++ rest)
    → Serves fs r × Stands (skip_all fs r) rest
unfolding encode_all
serves [] rest h st = (tt, st)
serves (f ∷ fs) {r = r} rest h st =
    let st' : Stands r (encode f ++ (encode_all fs ++ rest)) =
      subst (Stands r) (append_assoc (encode f) (encode_all fs) rest) st in
    let (more, end) = serves fs rest h.1 (Stands-skip (encode_all fs ++ rest) f st') in
    ((gives (encode_all fs ++ rest) f h.0 st', more), end)

-- A reader of the message that the fields were written to.
pub Stands-fields :
    (fs : List Field)
    → All IsField fs
    → length (encode_all fs) + 2 ^ 32 ≤ 2 ^ 64
    → Stands (reader (encode_all fs)) (encode_all fs ++ [])
Stands-fields fs h fits = record {
  bounds = record { within = omega arith; fits = fits; bytes = encode_all-bytes fs h };
  here = sym (append-nil (encode_all fs));
}

-- A message that is written field by field is read field by field.
pub message-Serves :
    (fs : List Field) (msg : MsgWriter)
    → msg ≡ put_all fs no_bytes
    → All IsField fs
    → length msg.buf + 2 ^ 32 ≤ 2 ^ 64
    → Serves fs (reader msg.buf)
message-Serves fs msg written h fits =
    let bytes : msg.buf ≡ encode_all fs =
      ap (λ w. w.buf) written ∙ put_all-encode_all fs no_bytes h in
    let fits' = subst (λ s. length s + 2 ^ 32 ≤ 2 ^ 64) bytes fits in
    rw bytes ((serves fs [] h (Stands-fields fs h fits')).0)
