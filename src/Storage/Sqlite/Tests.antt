-- ===== src/Storage/Sqlite/Tests.antt =====
-- Tests of the storage of an index, and its theorems at concrete indexes.
use gogol.Prelude.{◌≡◌, refl, [], ◌∷◌, map, arith}
use gogol.Text.{codes, str_eq, find, index_where}
use gogol.Text.Segments.{join, join_behind}
use gogol.Dict.{has_key}
use gogol.Loc.{EntryType}
use gogol.Config.Global.{EmbedPrecision}
use gogol.Storage.Half.{float_to_f16, f16_to_float, float_to_f16-f16_to_float}
use gogol.Storage.Index.{IndexEntry, Index}
use gogol.Storage.DocRefs.{RefKind}
use gogol.Storage.Sqlite.Separated.{split_sep, split_loop, join_sep}
use gogol.Storage.Sqlite.Whole.{IndexData, save_all, load_all}
use gogol.Storage.Sqlite.Entries.{save_index_meta_only, load_index}
use gogol.Storage.Sqlite.Index.{with_embedding, left_embedding, meta_only-loses}
use gogol.Storage.Sqlite.Collections.{IsSame, IsStorableData, load_all-save_all}
use gogol.Storage.Sqlite.Memory.{memory, no_rows}

abbrev code_entry : IndexEntry
code_entry = record {
  proto = EntryType.doc;
  path = codes "a.cpp";
  chunk = codes "main";
  line = 3;
  end_line = 9;
  hash = 77;
  embedding = 1065353216 ∷ 1056964608 ∷ [];
}

abbrev note_entry : IndexEntry
note_entry = record {
  proto = EntryType.note;
  path = codes "todo";
  chunk = codes "todo";
  line = 0;
  end_line = 0;
  hash = 1700000000;
  embedding = 1056964608 ∷ 1065353216 ∷ [];
}

abbrev small_index : Index
small_index = record {
  dim = 2;
  precision = EmbedPrecision.f32;
  entries = code_entry ∷ note_entry ∷ [];
}

abbrev small_data : IndexData
small_data = record {
  index = small_index;
  mem =
      (
        codes "todo",
        record {
          content = codes "buy milk";
          sources = codes "rel://a" ∷ codes "mem://b" ∷ [];
          timestamp = 1700000000;
        },
      )
      ∷ [];
  glossary = (codes "CFC", codes "Customer Fulfillment Center") ∷ [];
  calls =
      record { caller = codes "main"; callee = codes "run"; file = codes "a.cpp"; line = 4 } ∷ [];
  imports = (codes "a.cpp", record { module_path = codes "b.h"; symbols = [] } ∷ []) ∷ [];
  docrefs =
      (
        codes "x.md",
        record { kind = RefKind.external; target = codes "http://x"; text = codes "here" } ∷ [],
      )
      ∷ [];
  exports = (codes "a.cpp", codes "main" ∷ codes "run" ∷ []) ∷ [];
  types =
      record {
        name = codes "A";
        parent = codes "B";
        kind = codes "extends";
        file = codes "a.cpp";
        line = 1;
      }
      ∷ [];
  metrics =
      record {
        name = codes "main";
        file = codes "a.cpp";
        line = 3;
        complexity = 2;
        lines = 6;
        params = 0;
        returns = 1;
        max_depth = 1;
      }
      ∷ [];
}

small_data-IsStorableData : IsStorableData small_data
unfolding has_key str_eq
small_data-IsStorableData = record {
  index = omega arith;
  mem_keys = refl;
  mem_sources = (((refl, (refl, tt)), refl), tt);
  glossary_keys = refl;
  call_lines = omega arith;
  import_keys = refl;
  import_symbols = ((tt, refl), tt);
  docref_keys = refl;
  docref_texts = (refl, tt);
  export_keys = refl;
  type_lines = omega arith;
  metrics_fit = omega arith;
}

load_all-save_all_example : IsSame (load_all memory (save_all memory small_data no_rows)) small_data
load_all-save_all_example = load_all-save_all memory small_data no_rows small_data-IsStorableData

-- Entries that are added to an index whose database has no rows yet.
meta_only-loses_example :
    (load_index memory (save_index_meta_only memory small_index no_rows)).entries
    ≡ with_embedding [] code_entry
      ∷ map (λ e. with_embedding (left_embedding memory small_index no_rows e) e) (note_entry ∷ [])
meta_only-loses_example =
    meta_only-loses memory small_index [] (note_entry ∷ []) code_entry no_rows refl (omega arith)
      refl

float_to_f16-f16_to_float_example : float_to_f16 (f16_to_float 0x3C01) ≡ 0x3C01
float_to_f16-f16_to_float_example = float_to_f16-f16_to_float 0x3C01 (omega arith)

split_sep-three :
    split_sep (join_sep (codes "a" ∷ [] ∷ codes "b" ∷ [])) ≡ codes "a" ∷ [] ∷ codes "b" ∷ []
unfolding split_sep split_loop find index_where join_sep join join_behind
split_sep-three = refl

-- A list of one empty string is not told from the empty list.
split_sep-lone_blank : split_sep (join_sep ([] ∷ [])) ≡ []
unfolding split_sep join_sep join join_behind
split_sep-lone_blank = refl
