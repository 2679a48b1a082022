-- ===== src/Concern/KeySet.antt =====
-- lsp/concern/keyset.go: the keys under which a state manager stores its data.
use ddbot_nexus.Prelude.{
  ◌==◌, if◌then◌else◌, Text, bytes, ◌==ₜ◌, ℤ, pos, negsuc, ◌≡◌, refl, Bool, true, false, Option,
  List, ◌++◌, arith,
}
use mathlib.Core.Option
use ddbot_nexus.Buntdb.Key.{
  KeyPart, named_key, parse_concern_state_key_with_int64, parse_concern_state_key_with_string,
  int_part, text_part,
}

-- What `ParseId` of a site returns: an int64 or a text.
pub data ConcernId : Type 0 where
  int_id : ℤ → ConcernId
  text_id : Text → ConcernId

unfoldable pub int_eq : ℤ → ℤ → Bool
int_eq (pos m) (pos n) = m == n
int_eq (negsuc m) (negsuc n) = m == n
int_eq _ _ = false

pub int_eq_refl : (x : ℤ) → int_eq x x ≡ true
unfolding int_eq
int_eq_refl (pos n) = ground arith
int_eq_refl (negsuc n) = ground arith

pub int_eq_sym : (x y : ℤ) → int_eq x y ≡ int_eq y x
unfolding int_eq
int_eq_sym (pos m) (pos n) = ground arith
int_eq_sym (negsuc m) (negsuc n) = ground arith
int_eq_sym (pos m) (negsuc n) = refl
int_eq_sym (negsuc m) (pos n) = refl

-- `==` on the interface values.
unfoldable pub id_eq : ConcernId → ConcernId → Bool
unfolding int_eq
id_eq (int_id m) (int_id n) = int_eq m n
id_eq (text_id s) (text_id t) = s ==ₜ t
id_eq _ _ = false

unfoldable pub id_part : ConcernId → KeyPart
id_part (int_id n) = int_part n
id_part (text_id t) = text_part t

-- The parser is that of int64 ids or that of text ids, as the two constructors of a key set choose.
pub record PrefixKeySet : Type 0 where
  pub prefix : Text
  pub int_ids : Bool

unfoldable pub new_prefix_key_set_with_string_id : Text → PrefixKeySet
new_prefix_key_set_with_string_id prefix = record { prefix = prefix; int_ids = false }

unfoldable pub new_prefix_key_set_with_int64_id : Text → PrefixKeySet
new_prefix_key_set_with_int64_id prefix = record { prefix = prefix; int_ids = true }

unfoldable pub group_concern_state_key : PrefixKeySet → List KeyPart → Text
group_concern_state_key k keys = named_key (k.prefix ++ bytes "GroupConcernState") keys

unfoldable pub group_concern_config_key : PrefixKeySet → List KeyPart → Text
group_concern_config_key k keys = named_key (k.prefix ++ bytes "GroupConcernConfig") keys

unfoldable pub fresh_key : PrefixKeySet → List KeyPart → Text
fresh_key k keys = named_key (k.prefix ++ bytes "FreshKey") keys

unfoldable pub group_at_all_mark_key : PrefixKeySet → List KeyPart → Text
group_at_all_mark_key k keys = named_key (k.prefix ++ bytes "GroupAtAllMark") keys

unfoldable pub parse_group_concern_state_key : PrefixKeySet → Text → Option (ℤ × ConcernId)
parse_group_concern_state_key k key =
    if k.int_ids
    then Option.map (λ p. (p.0, int_id p.1)) (parse_concern_state_key_with_int64 key)
    else Option.map (λ p. (p.0, text_id p.1)) (parse_concern_state_key_with_string key)
