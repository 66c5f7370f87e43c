-- ===== src/Rpc/Buffer/RoundTrip.antt =====
-- A message is a sequence of fields: what the put calls wrote, the get calls of the same kinds read.
use mathlib.Core.Option
use gogol.Prelude.{
  ◌+◌, ◌^◌, ◌≤◌, ◌≡◌, sym, ap, subst, ◌∙◌, Option, none, some, List, [], ◌∷◌, ◌++◌, map, append-nil,
  append_assoc, arith, length, drop, All, length-append,
}
use gogol.Text.{Bytes}
use gogol.Rpc.Buffer.{MsgReader, Get, get_u8, get_u32, get_float, get_str}
use gogol.Rpc.Buffer.Bounds.{InBounds}
use gogol.Rpc.Buffer.Wire.{
  Field, IsField, skip, encode, encode_all, put_all, put_all-encode_all, encode_all-bytes,
  skip-here, get_u8-here, get_u32-here, get_float-here, get_str-here, no_bytes, reader,
}

pub data Kind : Type 0 where
  u8 u32 float str : Kind

abbrev pub kind : Field → Kind
kind (Field.u8 v) = Kind.u8
kind (Field.u32 v) = Kind.u32
kind (Field.float v) = Kind.float
kind (Field.str s) = Kind.str

abbrev on_value : {A B : Type 0} → (A → B) → Option A × MsgReader → Option B × MsgReader
on_value f (v, r) = (Option.map f v, r)

get : Kind → Get Field
get Kind.u8 r = on_value Field.u8 (get_u8 r)
get Kind.u32 r = on_value Field.u32 (get_u32 r)
get Kind.float r = on_value Field.float (get_float r)
get Kind.str r = on_value Field.str (get_str r)

abbrev and_then : Option Field × MsgReader → Get (List Field) → Option (List Field) × MsgReader
and_then (none, r) next = (none, r)
and_then (some f, r) next = on_value (◌∷◌ f) (next r)

-- Reads in order, up to the first that fails.
pub get_all : List Kind → Get (List Field)
get_all [] r = (some [], r)
get_all (k ∷ ks) r = and_then (get k r) (get_all ks)

get-encode :
    (f : Field) (r : MsgReader) (rest : Bytes)
    → InBounds r
    → IsField f
    → drop r.pos r.content ≡ encode f ++ rest
    → get (kind f) r ≡ (some f, skip f r)
unfolding get encode
get-encode (Field.u8 v) r rest b h here = ap (on_value Field.u8) (get_u8-here r rest b v here)
get-encode (Field.u32 v) r rest b h here = ap (on_value Field.u32) (get_u32-here r rest b v h here)
get-encode (Field.float v) r rest b h here =
    ap (on_value Field.float) (get_float-here r rest b v h here)
get-encode (Field.str s) r rest b h here =
    ap (on_value Field.str) (get_str-here r rest b s h.0 here)

get_all-encode_all :
    (fs : List Field) (r : MsgReader) (rest : Bytes)
    → InBounds r
    → All IsField fs
    → drop r.pos r.content ≡ encode_all fs ++ rest
    → get_all (map kind fs) r ≡ (some fs, record r { pos = r.pos + length (encode_all fs) })
unfolding get_all encode_all
get_all-encode_all [] r rest b h here = ap (λ n. (some [], record r { pos = n })) (omega arith)
get_all-encode_all (f ∷ fs) r rest b h here =
    let here' : drop r.pos r.content ≡ encode f ++ (encode_all fs ++ rest) =
      here ∙ append_assoc (encode f) (encode_all fs) rest in
    let (b', behind_here) = skip-here f r (encode_all fs ++ rest) b here' in
    ap (λ g. and_then g (get_all (map kind fs))) (get-encode f r _ b h.0 here')
    ∙ ap (on_value (◌∷◌ f)) (get_all-encode_all fs (skip f r) rest b' h.1 behind_here)
    ∙ ap (λ n. (some (f ∷ fs), record r { pos = n }))
        (omega (arith, length-append (encode f) (encode_all fs)))

-- Whatever fields a message is written from, reading fields of the same kinds from its bytes gives
-- them back, all of them, and leaves the reader at the end of the buffer.
pub get_all-put_all :
    (fs : List Field)
    → All IsField fs
    → length (put_all fs no_bytes).buf + 2 ^ 32 ≤ 2 ^ 64
    → let message = (put_all fs no_bytes).buf in
      get_all (map kind fs) (reader message)
      ≡ (some fs, record { content = message; pos = length message })
get_all-put_all fs h fits =
    let written = put_all-encode_all fs no_bytes h in
    rw written (
      get_all-encode_all fs (reader (encode_all fs)) []
        (record {
          within = omega arith;
          fits = subst (λ s. length s + 2 ^ 32 ≤ 2 ^ 64) written fits;
          bytes = encode_all-bytes fs h;
        })
        h (sym (append-nil _))
      ∙ ap (λ n. (some fs, record { content = encode_all fs; pos = n })) (omega arith))
