-- ===== src/Config/Tests.antt =====
-- A configuration file with an index, keys and global settings.
use gogol.Prelude.{
  ◌≡◌, refl, some, List, [], ◌∷◌, ◌++◌, All, replicate, foldl, arith, ◌<◌, All-replicate,
}
use gogol.Text.{Bytes, codes, index_where, str_eq}
use gogol.Text.Lines.{getlines}
use gogol.Dict.{get, put, str_less}
use gogol.Config.{
  trim, trim_start, trim_tail, expand_home, rw, parse_mode, leading_digits, atoi, is_skipped,
  last_byte, is_header, key_value, comma_pieces,
}
use gogol.Config.Indexes.{
  change, is_reserved, with_dot, add_path, add_ext, assign, config_line, load_config,
}
use gogol.Config.Indexes.Wellformed.{IsNamed, load_config-IsNamed}
use gogol.Config.Keys.{load_keys}
use gogol.Config.Keys.RoundTrip.{IsKey, print_keys, load_keys-print_keys}

trim_test : trim (codes "  a b ") ≡ codes "a b"
unfolding trim trim_start trim_tail
trim_test = refl

atoi_test : (atoi (codes "42x") ≡ 42) × (atoi (codes "-1") ≡ 4294967295)
unfolding atoi leading_digits
atoi_test = (refl, refl)

abbrev file : Bytes
file =
    codes "model=m"
    ++ (b'\n'
        ∷ (codes "[web]"
            ++ (b'\n'
                ∷ (codes "paths = ~/w, /x"
                    ++ (b'\n'
                        ∷ (codes "ext=TS,.md"
                            ++ (b'\n' ∷ (codes "mode=rw" ++ (b'\n' ∷ codes "[mcp]")))))))))

load_config_test :
    load_config (some (codes "/h")) (some file)
    ≡ (
      codes "web",
      record {
        name = codes "web";
        paths = codes "/h/w" ∷ codes "/x" ∷ [];
        extensions = codes ".ts" ∷ codes ".md" ∷ [];
        mode = rw;
        model = [];
        memory = [];
        watch_override = 4294967295;
        watch_debounce_ms_override = 4294967295;
      },
    )
      ∷ []
unfolding load_config config_line getlines trim trim_start trim_tail is_skipped is_header last_byte
    is_reserved key_value index_where str_eq assign add_path add_ext comma_pieces expand_home
    with_dot change get put str_less parse_mode
load_config_test = refl

load_config-IsNamed_example : All IsNamed (load_config (some (codes "/h")) (some file))
load_config-IsNamed_example = load_config-IsNamed (some (codes "/h")) (some file)

abbrev two_keys : List (Bytes × Bytes)
two_keys = (codes "ann", replicate 32 7) ∷ (codes "bob", replicate 32 200) ∷ []

two_keys-IsKey : All IsKey two_keys
two_keys-IsKey = (
  (refl, All-replicate (λ b. b < 256) 32 7 (omega arith), refl),
  ((refl, All-replicate (λ b. b < 256) 32 200 (omega arith), refl), tt),
)

load_keys-print_keys_example :
    load_keys (some (print_keys two_keys)) ≡ foldl (λ m e. put e.0 e.1 m) [] two_keys
load_keys-print_keys_example = load_keys-print_keys two_keys two_keys-IsKey
