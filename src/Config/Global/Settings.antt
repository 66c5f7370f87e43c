-- ===== src/Config/Global/Settings.antt =====
-- The two ways to write global settings, and the values that the MCP settings can take.
use gogol.Prelude.{
  ◌≡◌, ◌⊎◌, refl, ap, ◌∙◌, Option, none, some, inl, inr, Bool-cases, ◌∷◌, ◌++◌, foldl,
  if◌then◌else◌, if-keeps, foldl-keeps,
}
use gogol.Text.{Bytes, codes, str_eq}
use gogol.Text.Lines.{getlines, getlines-line}
use gogol.Config.{
  trim, trim_start, trim_tail, expand_home, is_skipped, is_header, last_byte, key_value, is_true,
  atoi,
}
use gogol.Config.Global.{
  GlobalConfig, f16, f32, assign_mcp, assign_global, GlobalReading, assign_entry, global_line,
  before_sections, load_global_config,
}

global_line-header :
    (home : Option Bytes) → global_line home before_sections (codes "[global]") ≡ before_sections
unfolding global_line trim trim_start trim_tail is_skipped is_header last_byte str_eq
global_line-header home = refl

-- Settings in an explicit section [global] at the start of the file are read as the same settings
-- without the header, whatever follows.
pub load_global_config-header :
    (home : Option Bytes) (text : Bytes)
    → load_global_config home (some (codes "[global]" ++ (b'\n' ∷ text)))
      ≡ load_global_config home (some text)
unfolding load_global_config
load_global_config-header home text =
    ap (λ ls. (foldl (global_line home) before_sections ls).gc)
      (getlines-line (codes "[global]") text refl)
    ∙ ap (λ s. (foldl (global_line home) s (getlines text)).gc) (global_line-header home)

-- The tools that may be exposed.
HasTools : GlobalConfig → Type 0
HasTools gc = (gc.mcp_tools ≡ codes "read") ⊎ (gc.mcp_tools ≡ codes "read-write")

assign_mcp-HasTools :
    (key value : Bytes) (gc : GlobalConfig) → HasTools gc → HasTools (assign_mcp key value gc)
unfolding assign_mcp
assign_mcp-HasTools key value gc h =
    let enabled : HasTools (record gc { mcp_enabled = is_true value }) = unfold HasTools in h in
    let written : HasTools (record gc {
      mcp_tools = if str_eq value (codes "read-write") then codes "read-write" else codes "read";
    }) =
      unfold HasTools in
      elim (Bool-cases (str_eq value (codes "read-write"))) [
        | inl full ↦ rw full (inr refl)
        | inr other ↦ rw other (inl refl)
      ] in
    if-keeps HasTools (str_eq key (codes "enabled")) enabled
      (if-keeps HasTools (str_eq key (codes "tools")) written h)

assign_global-HasTools :
    (home : Option Bytes) (key value : Bytes) (gc : GlobalConfig)
    → HasTools gc
    → HasTools (assign_global home key value gc)
unfolding assign_global
assign_global-HasTools home key value gc h =
    let other : (gc' : GlobalConfig) → gc'.mcp_tools ≡ gc.mcp_tools → HasTools gc' =
      λ gc' e. unfold HasTools in rw e h in
    if-keeps HasTools (str_eq key (codes "model"))
      (other (record gc { model = expand_home home value }) refl)
      (if-keeps HasTools (str_eq key (codes "tcp")) (other (record gc { tcp = value }) refl) (
        if-keeps HasTools (str_eq key (codes "batch_size"))
          (other (record gc { batch_size = atoi value }) refl)
          (if-keeps HasTools (str_eq key (codes "watch"))
            (other (record gc { watch = is_true value }) refl)
            (if-keeps HasTools (str_eq key (codes "watch_debounce_ms"))
              (other (record gc { watch_debounce_ms = atoi value }) refl)
              (if-keeps HasTools (str_eq key (codes "precision"))
                (other (record gc { precision = if str_eq value (codes "f16") then f16 else f32 })
                  refl)
                h)))))

assign_entry-HasTools :
    (assign : Bytes → Bytes → GlobalConfig → GlobalConfig)
    → ((key value : Bytes) (gc : GlobalConfig) → HasTools gc → HasTools (assign key value gc))
    → (entry : Option (Bytes × Bytes)) (gc : GlobalConfig) → HasTools gc
    → HasTools (assign_entry assign entry gc)
unfolding assign_entry
assign_entry-HasTools assign keeps none gc h = h
assign_entry-HasTools assign keeps (some (key, value)) gc h = keeps key value gc h

Keeps : GlobalReading → Type 0
Keeps s = HasTools s.gc

global_line-Keeps :
    (home : Option Bytes) (s : GlobalReading) (raw : Bytes)
    → Keeps s
    → Keeps (global_line home s raw)
unfolding global_line
global_line-Keeps home s raw h =
    let line = trim raw in
    let moved : (s' : GlobalReading) → HasTools s'.gc → Keeps s' = λ s' g. unfold Keeps in g in
    let now : HasTools s.gc = unfold Keeps in h in
    if-keeps Keeps (is_skipped line) h (
      if-keeps Keeps (is_header line)
        (moved
          (record s {
            in_global = str_eq line (codes "[global]");
            in_mcp = str_eq line (codes "[mcp]");
          })
          now)
        (if-keeps Keeps s.in_mcp
          (moved (record s { gc = assign_entry assign_mcp (key_value line) s.gc })
            (assign_entry-HasTools assign_mcp assign_mcp-HasTools (key_value line) s.gc now))
          (if-keeps Keeps s.in_global
            (moved (record s { gc = assign_entry (assign_global home) (key_value line) s.gc })
              (assign_entry-HasTools (assign_global home) (assign_global-HasTools home)
                (key_value line) s.gc now))
            h)))

-- Whatever the file holds, the tools that the MCP server exposes are `read` or `read-write`.
pub load_global_config-mcp_tools :
    (home : Option Bytes) (file : Option Bytes)
    → ((load_global_config home file).mcp_tools ≡ codes "read")
      ⊎ ((load_global_config home file).mcp_tools ≡ codes "read-write")
unfolding load_global_config HasTools Keeps
load_global_config-mcp_tools home none = inl refl
load_global_config-mcp_tools home (some text) =
    foldl-keeps Keeps (global_line home) (global_line-Keeps home) before_sections (getlines text)
      (inl refl)
