-- ===== src/Sites/Config.antt =====
-- lsp/bilibili/config.go, Validate: a filter by the type of a dynamic is valid too. The JSON of a
-- filter, the names that are predefined, and the numbers that the generated enumeration names are
-- arguments.
use ddbot_nexus.Prelude.{
  ltb, if◌then◌else◌, Text, bytes, ◌==ₜ◌, ℤ, pos, negsuc, parse_int, ◌^◌, Bool, false, ◌&&◌, ◌||◌,
  not, Option, none, some, List, [], ◌∷◌,
}
use ddbot_nexus.Buntdb.Interface.{Reply, other, ok, err}
use ddbot_nexus.Concern.KeySet.{int_eq}
use ddbot_nexus.Concern.Config.Hooks.{GroupConcernFilterConfig, filter_is_empty}
use ddbot_nexus.Concern.Config.Operate.{GroupConcernConfig, validate_default}

abbrev pub is_type_filter : GroupConcernFilterConfig → Bool
is_type_filter f = f.kind ==ₜ bytes "type" || f.kind ==ₜ bytes "not_type"

-- GetFilterByType of lsp/concern/config_filter.go
unfoldable pub get_filter_by_type :
    (Text → Reply (List Text)) → GroupConcernFilterConfig → Reply (List Text)
get_filter_by_type unmarshal f = if is_type_filter f then unmarshal f.config else err (other 0)

abbrev pub is_int32 : ℤ → Bool
is_int32 (pos n) = ltb n (2 ^ 31)
is_int32 (negsuc n) = ltb n (2 ^ 31)

abbrev pub is_named : (ℤ → Bool) → Option ℤ → Bool
is_named named none = false
is_named named (some t) = is_int32 t && (not (int_eq t (pos 0)) && named t)

-- The names that are not defined.
unfoldable pub check_type_define : (Text → Bool) → (ℤ → Bool) → List Text → List Text
check_type_define predefined named [] = []
check_type_define predefined named (t ∷ types) =
    let invalid = check_type_define predefined named types in
    if predefined t || is_named named (parse_int t) then invalid else t ∷ invalid

abbrev pub no_invalid : List Text → Reply (Unit {0})
no_invalid [] = ok tt
no_invalid (t ∷ ts) = err (other 1)

unfoldable pub validate_bilibili :
    (Text → Reply (List Text)) → (Text → Bool) → (ℤ → Bool) → GroupConcernConfig → Reply (Unit {0})
unfolding get_filter_by_type check_type_define
validate_bilibili unmarshal predefined named c =
    let f = c.group_concern_filter in
    if not (filter_is_empty f) && is_type_filter f
    then elim (get_filter_by_type unmarshal f) [
      | err e ↦ err e
      | ok types ↦ no_invalid (check_type_define predefined named types)
    ]
    else validate_default c
