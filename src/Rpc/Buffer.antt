-- ===== src/Rpc/Buffer.antt =====
-- MsgWriter and MsgReader of src/daemon/rpc_v2.{h,cpp}. A byte is a number below 256. A float is
-- the 32-bit pattern that memcpy moves. The host is little-endian, as on x86 and ARM.
pub mod Wire
pub mod RoundTrip
pub mod Bounds
mod Tests
use gogol.Prelude.{
  ℕ, suc, ◌+◌, ◌*◌, ◌/◌, ◌%◌, ◌^◌, ◌-◌, Bool, true, false, Option, none, some, List, [], ◌∷◌, ◌++◌,
  ltb, leb, if◌then◌else◌, is_nil, length, take, drop, get_elem?,
}
use gogol.Text.{Bytes}

pub record MsgWriter : Type 0 where
  pub buf : Bytes

pub record MsgReader : Type 0 where
  pub content : Bytes
  pub pos : ℕ

-- The bytes of a uint32_t in memory, lowest first, and the value that memcpy reads back.
unfoldable pub le32 : ℕ → Bytes
le32 v = v % 256 ∷ v / 256 % 256 ∷ v / 65536 % 256 ∷ v / 16777216 % 256 ∷ []

unfoldable pub le_value : Bytes → ℕ
le_value [] = 0
le_value (b ∷ bs) = b + 256 * le_value bs

-- Sums of size_t.
abbrev pub size_add : ℕ → ℕ → ℕ
size_add a b = (a + b) % 2 ^ 64

unfoldable pub put_u8 : ℕ → MsgWriter → MsgWriter
put_u8 v w = record { buf = w.buf ++ v ∷ [] }

unfoldable pub put_u32 : ℕ → MsgWriter → MsgWriter
put_u32 v w = record { buf = w.buf ++ le32 v }

unfoldable pub put_float : ℕ → MsgWriter → MsgWriter
put_float bits w = record { buf = w.buf ++ le32 bits }

-- The length is cut to 32 bits.
unfoldable pub put_str : Bytes → MsgWriter → MsgWriter
unfolding put_u32
put_str s w =
    let w' = put_u32 (length s % 2 ^ 32) w in if is_nil s then w' else record { buf = w'.buf ++ s }

pub put_bytes : Bytes → MsgWriter → MsgWriter
put_bytes s w = record { buf = w.buf ++ s }

-- A read gives the value, or none for the result `false`, and the reader behind it. Where it
-- fails, the variable that the caller passed keeps its value.
abbrev pub Get : Type 0 → Type 0
Get A = MsgReader → Option A × MsgReader

-- data_[i]; a place outside is never read (Rpc.Buffer.Bounds).
unfoldable pub byte_at : Bytes → ℕ → ℕ
byte_at s i = elim (get_elem? s i) [ none ↦ 0 | some b ↦ b ]

unfoldable pub get_u8 : Get ℕ
unfolding byte_at
get_u8 r =
    if ltb (length r.content) (size_add r.pos 1)
    then (none, r)
    else (some (byte_at r.content r.pos), record r { pos = size_add r.pos 1 })

unfoldable pub get_u32 : Get ℕ
get_u32 r =
    if ltb (length r.content) (size_add r.pos 4)
    then (none, r)
    else (some (le_value (take 4 (drop r.pos r.content))), record r { pos = size_add r.pos 4 })

unfoldable pub get_float : Get ℕ
get_float r =
    if ltb (length r.content) (size_add r.pos 4)
    then (none, r)
    else (some (le_value (take 4 (drop r.pos r.content))), record r { pos = size_add r.pos 4 })

unfoldable pub get_bytes : ℕ → Get Bytes
get_bytes len r =
    if ltb (length r.content) (size_add r.pos len)
    then (none, r)
    else (some (take len (drop r.pos r.content)), record r { pos = size_add r.pos len })

-- The text of a string, once its length was read.
unfoldable pub get_text : Option ℕ × MsgReader → Option Bytes × MsgReader
get_text (none, r) = (none, r)
get_text (some len, r) = get_bytes len r

-- Where the length is read and the text is not there, the four bytes of the length stay consumed.
unfoldable pub get_str : Get Bytes
unfolding get_text
get_str r = get_text (get_u32 r)

pub remaining : MsgReader → ℕ
remaining r = (length r.content + 2 ^ 64 - r.pos) % 2 ^ 64

pub eof : MsgReader → Bool
eof r = leb (length r.content) r.pos
