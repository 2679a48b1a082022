-- ===== src/Utils.antt =====
-- utils/helper.go: the helpers on texts, switches and retries.
pub mod Laws
use ddbot_nexus.Prelude.{
  leb, ◌==◌, if◌then◌else◌, Text, bytes, ◌==ₜ◌, has_prefix, join, ℤ, format_int, lower, ℕ, zero,
  suc, ◌+◌, ◌-◌, Bool, true, false, ◌&&◌, Option, none, some, List, [], ◌∷◌, map,
}
use mathlib.Core.List.{reverse}

abbrev pub quote : ℕ
quote = b'"'

unfoldable pub trim_left_byte : ℕ → Text → Text
trim_left_byte q [] = []
trim_left_byte q (c ∷ s) = let rest = trim_left_byte q s in if c == q then rest else c ∷ s

-- strings.Trim(s, cutset), for a cutset of one byte
unfoldable pub trim_byte : ℕ → Text → Text
unfolding trim_left_byte
trim_byte q s = reverse (trim_left_byte q (reverse (trim_left_byte q s)))

-- A second match makes an answer ambiguous.
abbrev pub if_none : Option Text → Option Text → Option Text
if_none none next = next
if_none (some result) next = none

-- The loop of PrefixMatch: `found` is the option that was found before.
unfoldable pub prefix_match_from : Option Text → List Text → Text → Option Text
prefix_match_from found [] prefix = found
prefix_match_from found (opt ∷ opts) prefix =
    let skip = prefix_match_from found opts prefix in
    let next = prefix_match_from (some opt) opts prefix in
    if has_prefix opt prefix then if_none found next else skip

-- No option stands for the answer `"", false`.
unfoldable pub prefix_match : List Text → Text → Option Text
unfolding prefix_match_from
prefix_match opts prefix = prefix_match_from none opts prefix

unfoldable pub switch_to_bool : Text → Bool
switch_to_bool s = s ==ₜ bytes "on"

-- The calls of `f` are numbered from 0: the answer of each, and how many were made.
unfoldable pub retry_from : ℕ → ℕ → (ℕ → Bool) → Bool × ℕ
retry_from zero n f = (false, n)
retry_from (suc count) n f =
    let rest = retry_from count (n + 1) f in if f n then (true, n + 1) else rest

unfoldable pub retry : ℕ → (ℕ → Bool) → Bool × ℕ
unfolding retry_from
retry count f = retry_from count 0 f

unfoldable pub join_int64 : List ℤ → ℕ → Text
join_int64 ele sep = join sep (map format_int ele)

camel_rest : Text → Text
camel_rest [] = []
camel_rest (c ∷ s) =
    let rest = camel_rest s in
    if leb b'A' c && leb c b'Z' then b'_' ∷ (c - b'A' + b'a') ∷ rest else c ∷ rest

-- On ASCII names, where a byte is a rune.
unfoldable pub to_camel : Text → Text
unfolding camel_rest
to_camel [] = []
to_camel (c ∷ s) = lower c ∷ camel_rest s
