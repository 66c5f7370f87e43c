-- ===== src/Config/Keys/Length.antt =====
-- The length of the keys that are read.
use gogol.Prelude.{
  ◌≡◌, Option, none, some, inl, inr, Bool-cases, ◌==◌, length, All, ==_iff, if-keeps, foldl-keeps,
}
use gogol.Text.{Bytes, codes, str_eq}
use gogol.Text.Lines.{getlines}
use gogol.Dict.{All-put}
use gogol.Config.{trim, is_skipped, is_header, key_value}
use gogol.Config.Keys.{hex_to_bytes, KeyReading, add_key, keys_line, load_keys}
use gogol.Config.Keys.RoundTrip.{no_keys}

HaveLength : KeyReading → Type 0
HaveLength s = All (λ e. length e.1 ≡ 32) s.keys

add_key-HaveLength :
    (found : Option (Bytes × Bytes)) (s : KeyReading)
    → HaveLength s
    → HaveLength (record s { keys = add_key found s.keys })
unfolding HaveLength add_key
add_key-HaveLength none s h = h
add_key-HaveLength (some (name, hex_val)) s h =
    elim (Bool-cases (length (hex_to_bytes hex_val) == 32)) [
      | inl fits ↦ rw fits (
          All-put (λ e. length e.1 ≡ 32) name (hex_to_bytes hex_val) s.keys ((==_iff _ 32).0 fits)
            h)
      | inr other ↦ rw other h
    ]

keys_line-HaveLength : (s : KeyReading) (raw : Bytes) → HaveLength s → HaveLength (keys_line s raw)
unfolding keys_line
keys_line-HaveLength s raw h =
    let header : HaveLength (record s { in_keys = str_eq (trim raw) (codes "[keys]") }) =
      unfold HaveLength in h in
    if-keeps HaveLength (is_skipped (trim raw)) h (
      if-keeps HaveLength (is_header (trim raw)) header
        (if-keeps HaveLength s.in_keys (add_key-HaveLength (key_value (trim raw)) s h) h))

-- Whatever the file holds, each key that is read has the 32 bytes that the cipher takes.
pub load_keys-length : (file : Option Bytes) → All (λ e. length e.1 ≡ 32) (load_keys file)
unfolding load_keys HaveLength
load_keys-length none = tt
load_keys-length (some text) =
    foldl-keeps HaveLength keys_line keys_line-HaveLength no_keys (getlines text) tt
