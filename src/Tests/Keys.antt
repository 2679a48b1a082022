-- ===== src/Tests/Keys.antt =====
-- Keys of the database (lsp/buntdb/key.go).
use ddbot_nexus.Prelude.{bytes, pos, IsInt64, ◌≡◌, refl, some, List, [], ◌∷◌, arith}
use ddbot_nexus.Buntdb.Key.{
  KeyFamily, KeyPart, int_part, text_part, named_key, parse_concern_state_key_with_int64,
  parse_concern_state_key_with_string,
}
use ddbot_nexus.Buntdb.Key.Laws.{family_key-injective, parse-int_key, parse-text_key}

abbrev parts : List KeyPart
parts = int_part (pos 1) ∷ text_part (bytes "Admin") ∷ []

family_key-injective_example : KeyFamily.permission ≡ KeyFamily.permission
family_key-injective_example =
    family_key-injective KeyFamily.permission KeyFamily.permission parts parts refl

small : IsInt64 (pos 12)
small = ground arith

parse-int_key_example :
    parse_concern_state_key_with_int64
      (named_key (bytes "FreshKey") (int_part (pos 12) ∷ int_part (pos 12) ∷ []))
    ≡ some (pos 12, pos 12)
parse-int_key_example = parse-int_key (bytes "FreshKey") (pos 12) (pos 12) refl small small

parse-text_key_test :
    parse_concern_state_key_with_string
      (named_key (bytes "FreshKey") (int_part (pos 12) ∷ text_part (bytes "abc") ∷ []))
    ≡ some (pos 12, bytes "abc")
parse-text_key_test = parse-text_key (bytes "FreshKey") (pos 12) (bytes "abc") refl refl small
