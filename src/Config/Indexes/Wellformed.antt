-- ===== src/Config/Indexes/Wellformed.antt =====
-- What holds of every index that load_config gives, whatever the file holds.
use gogol.Prelude.{
  ◌≡◌, refl, Bool, true, false, not, ◌&&◌, ◌||◌, Option, none, some, Option-cases, Bool-cases, inl,
  inr, [], ◌∷◌, map, arith, leb, ◌==◌, if◌then◌else◌, is_nil, all, All, All-append, All-mono,
  if-keeps, foldl-keeps,
}
use gogol.Text.{Bytes, codes, str_eq}
use gogol.Text.Lines.{getlines}
use gogol.Dict.{get, All-put, All-get}
use gogol.Config.{
  IndexConfig, trim, expand_home, parse_mode, atoi, is_true, key_value, comma_pieces, is_skipped,
  is_header,
}
use gogol.Config.Indexes.{
  Configs, new_config, change, is_reserved, to_lower, with_dot, add_path, add_ext, assign, Reading,
  config_line, fill_name, load_config,
}

-- A dot, then no upper case letter.
abbrev pub is_extension : Bytes → Bool
is_extension [] = false
is_extension (c ∷ s) = c == b'.' && all (λ c. not (leb b'A' c && leb c b'Z')) s

-- A section that stands for an index, with extensions as they are compared.
abbrev pub IsIndex : Bytes × IndexConfig → Type 0
IsIndex (section, cfg) =
    (is_reserved section ≡ false) × All (λ e. is_extension e ≡ true) cfg.extensions

all-lower : (s : Bytes) → all (λ c. not (leb b'A' c && leb c b'Z')) (map to_lower s) ≡ true
all-lower [] = refl
all-lower (c ∷ s) = ground (arith, all-lower s)

with_dot-is_extension :
    (e : Bytes) → is_nil e ≡ false → is_extension (map to_lower (with_dot e)) ≡ true
unfolding with_dot
with_dot-is_extension [] h = cc
with_dot-is_extension (c ∷ s) h = ground (arith, all-lower s)

-- All sections read so far are such.
AreIndexes : Configs → Type 0
AreIndexes = All IsIndex

module _ (section : Bytes) (named : is_reserved section ≡ false) where
  -- A change that keeps the extensions good.
  change-IsIndex :
      (f : IndexConfig → IndexConfig) (configs : Configs)
      → ((c : IndexConfig)
          → All (λ e. is_extension e ≡ true) c.extensions
          → All (λ e. is_extension e ≡ true) (f c).extensions)
      → AreIndexes configs
      → AreIndexes (change section f configs)
  unfolding change AreIndexes
  change-IsIndex f configs keeps h = elim (Option-cases (get section configs)) [
    | inl e ↦ rw e (All-put IsIndex section (f new_config) configs (named, keeps new_config tt) h)
    | inr (c, e) ↦ rw e (
        All-put IsIndex section (f c) configs
          (
            named,
            keeps c (
                All-get (λ c. All (λ e. is_extension e ≡ true) c.extensions) section c configs
                  (All-mono (λ x p. p.1) configs h) e),
          )
          h)
  ]

  add_path-IsIndex :
      (home : Option Bytes) (configs : Configs) (piece : Bytes)
      → AreIndexes configs
      → AreIndexes (add_path home section configs piece)
  unfolding add_path
  add_path-IsIndex home configs piece h =
      if-keeps AreIndexes (not (is_nil (trim piece))) (change-IsIndex _ configs (λ c p. p) h) h

  add_ext-IsIndex :
      (configs : Configs) (piece : Bytes)
      → AreIndexes configs
      → AreIndexes (add_ext section configs piece)
  unfolding add_ext AreIndexes
  add_ext-IsIndex configs piece h = elim (Bool-cases (is_nil (trim piece))) [
    | inl empty ↦ rw empty h
    | inr full ↦ rw full (
        change-IsIndex _ configs
          (λ c p.
            All-append (λ e. is_extension e ≡ true) c.extensions _ p
              (with_dot-is_extension (trim piece) full, tt))
          h)
  ]

  assign-IsIndex :
      (home : Option Bytes) (key value : Bytes) (configs : Configs)
      → AreIndexes configs
      → AreIndexes (assign home section key value configs)
  unfolding assign
  assign-IsIndex home key value configs h =
      if-keeps AreIndexes (str_eq key (codes "paths") || str_eq key (codes "path"))
        (foldl-keeps AreIndexes (add_path home section) (λ s x. add_path-IsIndex home s x) configs
          (comma_pieces value) h)
        (if-keeps AreIndexes (str_eq key (codes "ext"))
          (foldl-keeps AreIndexes (add_ext section) add_ext-IsIndex configs (comma_pieces value) h)
          (if-keeps AreIndexes (str_eq key (codes "mode"))
            (change-IsIndex (λ c. record c { mode = parse_mode value }) configs (λ c p. p) h)
            (if-keeps AreIndexes (str_eq key (codes "model"))
              (change-IsIndex (λ c. record c { model = expand_home home value }) configs (λ c p. p)
                h)
              (if-keeps AreIndexes (str_eq key (codes "memory"))
                (change-IsIndex (λ c. record c { memory = expand_home home value }) configs
                  (λ c p. p) h)
                (if-keeps AreIndexes (str_eq key (codes "watch"))
                  (change-IsIndex
                    (λ c. record c { watch_override = if is_true value then 1 else 0 }) configs
                    (λ c p. p) h)
                  (if-keeps AreIndexes (str_eq key (codes "watch_debounce_ms"))
                    (change-IsIndex (λ c. record c { watch_debounce_ms_override = atoi value })
                      configs (λ c p. p) h)
                    h))))))

abbrev Keeps : Reading → Type 0
Keeps s = AreIndexes s.configs

section_line-IsIndex :
    (home : Option Bytes) (s : Reading) (found : Option (Bytes × Bytes))
    → Keeps s
    → Keeps (
        if is_reserved s.current_section then s else elim found as (λ x. Reading) [
          | none ↦ s
          | some (key, value) ↦ record s {
            configs = assign home s.current_section key value s.configs;
          }
        ])
section_line-IsIndex home s none h = if-keeps Keeps (is_reserved s.current_section) h h
section_line-IsIndex home s (some (key, value)) h =
    elim (Bool-cases (is_reserved s.current_section)) [
      | inl reserved ↦ rw reserved h
      | inr named ↦ rw named (assign-IsIndex s.current_section named home key value s.configs h)
    ]

config_line-IsIndex :
    (home : Option Bytes) (s : Reading) (raw : Bytes) → Keeps s → Keeps (config_line home s raw)
unfolding config_line
config_line-IsIndex home s raw h =
    if-keeps Keeps (is_skipped (trim raw)) h (
      if-keeps Keeps (is_header (trim raw)) h
        (section_line-IsIndex home s (key_value (trim raw)) h))

-- An index as it is returned: it also knows its own name.
abbrev pub IsNamed : Bytes × IndexConfig → Type 0
IsNamed (section, cfg) = IsIndex (section, cfg) × (cfg.name ≡ section)

fill_name-IsNamed : (m : Configs) → AreIndexes m → All IsNamed (map fill_name m)
unfolding AreIndexes
fill_name-IsNamed [] h = tt
fill_name-IsNamed ((k, c) ∷ m) h = ((h.0, refl), fill_name-IsNamed m h.1)

-- Whatever the file holds: every index that is read stands under a name that is not empty and not
-- one of the reserved sections `keys`, `chunkers`, `global` and `mcp`, carries that name, and each
-- of its extensions begins with a dot and has no upper case letter.
pub load_config-IsNamed : (home file : Option Bytes) → All IsNamed (load_config home file)
unfolding load_config AreIndexes
load_config-IsNamed home none = tt
load_config-IsNamed home (some text) = fill_name-IsNamed _ (
    foldl-keeps Keeps (config_line home) (config_line-IsIndex home)
      (record { current_section = []; configs = [] }) (getlines text) tt)
