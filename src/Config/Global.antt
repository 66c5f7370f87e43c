-- ===== src/Config/Global.antt =====
-- load_global_config of src/config/config.cpp, and the settings of an index that override it.
pub mod Settings
use gogol.Prelude.{
  ℕ, Bool, true, false, Option, none, some, List, [], ◌∷◌, foldl, leb, ◌==◌, ◌-◌, ◌^◌,
  if◌then◌else◌,
}
use gogol.Text.{Bytes, codes, str_eq}
use gogol.Text.Lines.{getlines}
use gogol.Config.{
  IndexConfig, inherit, trim, expand_home, atoi, is_skipped, is_header, key_value, is_true,
}

pub data EmbedPrecision : Type 0 where
  f32 f16 : EmbedPrecision

pub record GlobalConfig : Type 0 where
  pub model : Bytes
  pub tcp : Bytes
  pub batch_size : ℕ
  pub watch : Bool
  pub watch_debounce_ms : ℕ
  pub precision : EmbedPrecision
  pub mcp_enabled : Bool
  pub mcp_tools : Bytes

-- GlobalConfig{}.
abbrev pub new_global : GlobalConfig
new_global = record {
  model = [];
  tcp = [];
  batch_size = 32;
  watch = true;
  watch_debounce_ms = 2000;
  precision = f32;
  mcp_enabled = false;
  mcp_tools = codes "read";
}

unfoldable pub mcp_read_write : GlobalConfig → Bool
mcp_read_write gc = str_eq gc.mcp_tools (codes "read-write")

unfoldable pub assign_mcp : Bytes → Bytes → GlobalConfig → GlobalConfig
assign_mcp key value gc =
    if str_eq key (codes "enabled")
    then record gc { mcp_enabled = is_true value }
    else if str_eq key (codes "tools")
    then record gc {
      mcp_tools = if str_eq value (codes "read-write") then codes "read-write" else codes "read";
    }
    else gc

unfoldable pub assign_global : Option Bytes → Bytes → Bytes → GlobalConfig → GlobalConfig
assign_global home key value gc =
    if str_eq key (codes "model")
    then record gc { model = expand_home home value }
    else if str_eq key (codes "tcp")
    then record gc { tcp = value }
    else if str_eq key (codes "batch_size")
    then record gc { batch_size = atoi value }
    else if str_eq key (codes "watch")
    then record gc { watch = is_true value }
    else if str_eq key (codes "watch_debounce_ms")
    then record gc { watch_debounce_ms = atoi value }
    else if str_eq key (codes "precision")
    then record gc { precision = if str_eq value (codes "f16") then f16 else f32 }
    else gc

pub record GlobalReading : Type 0 where
  pub in_global : Bool
  pub in_mcp : Bool
  pub gc : GlobalConfig

-- An assignment, or none for a line without '='.
unfoldable pub assign_entry :
    (Bytes → Bytes → GlobalConfig → GlobalConfig)
    → Option (Bytes × Bytes)
    → GlobalConfig
    → GlobalConfig
assign_entry assign none gc = gc
assign_entry assign (some (key, value)) gc = assign key value gc

-- The body of the loop.
unfoldable pub global_line : Option Bytes → GlobalReading → Bytes → GlobalReading
global_line home s raw =
    let line = trim raw in
    if is_skipped line
    then s
    else if is_header line
    then record s {
      in_global = str_eq line (codes "[global]");
      in_mcp = str_eq line (codes "[mcp]");
    }
    else if s.in_mcp
    then record s { gc = assign_entry assign_mcp (key_value line) s.gc }
    else if s.in_global
    then record s { gc = assign_entry (assign_global home) (key_value line) s.gc }
    else s

-- Before the first section the keys are global.
abbrev pub before_sections : GlobalReading
before_sections = record { in_global = true; in_mcp = false; gc = new_global }

unfoldable pub load_global_config : Option Bytes → Option Bytes → GlobalConfig
load_global_config home none = new_global
load_global_config home (some text) = (foldl (global_line home) before_sections (getlines text)).gc

unfoldable pub effective_watch : IndexConfig → GlobalConfig → Bool
effective_watch idx g = if idx.watch_override == inherit then g.watch else idx.watch_override == 1

unfoldable pub effective_watch_debounce_ms : IndexConfig → GlobalConfig → ℕ
effective_watch_debounce_ms idx g =
    if leb (2 ^ 31) idx.watch_debounce_ms_override
    then g.watch_debounce_ms
    else idx.watch_debounce_ms_override
