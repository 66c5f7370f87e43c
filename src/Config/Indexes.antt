-- ===== src/Config/Indexes.antt =====
-- load_config of src/config/config.cpp: the sections of the indexes.
pub mod Wellformed
use gogol.Prelude.{
  ℕ, ◌+◌, ◌-◌, ◌*◌, Bool, true, false, not, ◌&&◌, ◌||◌, Option, none, some, List, [], ◌∷◌, ◌++◌,
  map, foldl, leb, ◌==◌, if◌then◌else◌, is_nil, length, take, drop,
}
use gogol.Text.{Bytes, codes, str_eq}
use gogol.Text.Lines.{getlines}
use gogol.Dict.{Dict, get, put}
use gogol.Config.{
  IndexConfig, r, inherit, trim, expand_home, parse_mode, atoi, is_skipped, is_header, key_value,
  comma_pieces, is_true,
}

-- IndexConfig{}.
abbrev pub new_config : IndexConfig
new_config = record {
  name = [];
  paths = [];
  extensions = [];
  mode = r;
  model = [];
  memory = [];
  watch_override = inherit;
  watch_debounce_ms_override = inherit;
}

abbrev pub Configs : Type 0
Configs = Dict IndexConfig

-- configs[section], changed; the section is made if it is not there.
unfoldable pub change : Bytes → (IndexConfig → IndexConfig) → Configs → Configs
change section f configs =
    put section (elim (get section configs) [ none ↦ f new_config | some c ↦ f c ]) configs

unfoldable pub is_reserved : Bytes → Bool
is_reserved section =
    is_nil section
    || (str_eq section (codes "keys")
        || (str_eq section (codes "chunkers")
            || (str_eq section (codes "global") || str_eq section (codes "mcp"))))

-- ::tolower, in the C locale.
abbrev pub to_lower : ℕ → ℕ
to_lower c = if leb b'A' c && leb c b'Z' then c + 32 else c

unfoldable pub with_dot : Bytes → Bytes
with_dot [] = []
with_dot (c ∷ s) = if c == b'.' then c ∷ s else b'.' ∷ c ∷ s

unfoldable pub add_path : Option Bytes → Bytes → Configs → Bytes → Configs
add_path home section configs piece =
    let p = trim piece in
    if not (is_nil p)
    then change section (λ c. record c { paths = c.paths ++ expand_home home p ∷ [] }) configs
    else configs

unfoldable pub add_ext : Bytes → Configs → Bytes → Configs
add_ext section configs piece =
    let e = trim piece in
    if not (is_nil e)
    then change section
        (λ c. record c { extensions = c.extensions ++ map to_lower (with_dot e) ∷ [] }) configs
    else configs

unfoldable pub assign : Option Bytes → Bytes → Bytes → Bytes → Configs → Configs
assign home section key value configs =
    if str_eq key (codes "paths") || str_eq key (codes "path")
    then foldl (add_path home section) configs (comma_pieces value)
    else if str_eq key (codes "ext")
    then foldl (add_ext section) configs (comma_pieces value)
    else if str_eq key (codes "mode")
    then change section (λ c. record c { mode = parse_mode value }) configs
    else if str_eq key (codes "model")
    then change section (λ c. record c { model = expand_home home value }) configs
    else if str_eq key (codes "memory")
    then change section (λ c. record c { memory = expand_home home value }) configs
    else if str_eq key (codes "watch")
    then change section (λ c. record c { watch_override = if is_true value then 1 else 0 }) configs
    else if str_eq key (codes "watch_debounce_ms")
    then change section (λ c. record c { watch_debounce_ms_override = atoi value }) configs
    else configs

-- The local variables of the loop.
pub record Reading : Type 0 where
  pub current_section : Bytes
  pub configs : Configs

-- The body of the loop, at a line that is not trimmed yet.
unfoldable pub config_line : Option Bytes → Reading → Bytes → Reading
config_line home s raw =
    let line = trim raw in
    if is_skipped line
    then s
    else if is_header line
    then record s { current_section = take (length line - 2) (drop 1 line) }
    else if is_reserved s.current_section
    then s
    else elim (key_value line) [
      | none ↦ s
      | some (key, value) ↦ record s { configs = assign home s.current_section key value s.configs }
    ]

abbrev pub fill_name : Bytes × IndexConfig → Bytes × IndexConfig
fill_name (name, cfg) = (name, record cfg { name = name })

-- No file, no configs.
unfoldable pub load_config : Option Bytes → Option Bytes → Configs
load_config home none = []
load_config home (some text) =
    map fill_name
      (foldl (config_line home) (record { current_section = []; configs = [] })
        (getlines text)).configs
