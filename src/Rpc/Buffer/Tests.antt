-- ===== src/Rpc/Buffer/Tests.antt =====
-- Tests of MsgWriter and MsgReader, and their theorems at a concrete message.
use gogol.Prelude.{◌≡◌, refl, none, some, List, [], ◌∷◌, map, arith, length}
use gogol.Text.{codes}
use gogol.Rpc.Buffer.{
  le32, le_value, put_u8, put_u32, put_str, get_u8, get_u32, get_str, get_float, get_bytes,
}
use gogol.Rpc.Buffer.Bounds.{Reads, ReadsStr, first_byte, get-Reads}
use gogol.Rpc.Buffer.Wire.{Field, put_all, put, reader, no_bytes}
use gogol.Rpc.Buffer.RoundTrip.{kind, get_all, get_all-put_all}

-- The payload of a GET request: has_type, type, index, path, lines.
abbrev request : List Field
request = Field.u8 1 ∷ Field.u8 1 ∷ Field.str (codes "team") ∷ Field.str [] ∷ Field.u32 70000 ∷ []

put_all-request :
    (put_all request no_bytes).buf
    ≡ 1 ∷ 1 ∷ 4 ∷ 0 ∷ 0 ∷ 0 ∷ b't' ∷ b'e' ∷ b'a' ∷ b'm' ∷ 0 ∷ 0 ∷ 0 ∷ 0 ∷ 112 ∷ 17 ∷ 1 ∷ 0 ∷ []
unfolding put_all put put_u8 put_u32 put_str le32
put_all-request = refl

-- A text that is cut off: the length is consumed all the same.
get_str_cut :
    get_str (reader (9 ∷ 0 ∷ 0 ∷ 0 ∷ b'x' ∷ []))
    ≡ (none, record { content = 9 ∷ 0 ∷ 0 ∷ 0 ∷ b'x' ∷ []; pos = 4 })
unfolding get_str get_u32 get_bytes le_value
get_str_cut = refl

get-Reads_example :
    let r = reader (7 ∷ []) in
    Reads r 1 first_byte (get_u8 r)
    × Reads r 4 le_value (get_u32 r)
    × Reads r 4 le_value (get_float r)
    × Reads r 2 (λ s. s) (get_bytes 2 r)
    × ReadsStr r (get_str r)
get-Reads_example = get-Reads 2 (omega arith) (omega arith)

get_all-put_all_example : get_all (map kind request) (reader (put_all request no_bytes).buf) ≡ (
  some request,
  record { content = (put_all request no_bytes).buf; pos = length (put_all request no_bytes).buf },
)
unfolding put_all put put_u8 put_u32 put_str le32
get_all-put_all_example = get_all-put_all request (omega arith) (omega arith)
