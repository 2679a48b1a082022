-- ===== src/Utils/Laws.antt =====
-- What utils/helper.go promises of its helpers.
use ddbot_nexus.Prelude.{
  Bool-cases, filter, Text, ==ₜ_refl, has_prefix, elem, ◌≡◌, refl, sym, ◌∙◌, inl, inr, true, Option,
  none, some, List, [], ◌∷◌, arith,
}
use ddbot_nexus.Utils.{prefix_match_from, prefix_match}

-- The only entry of a list, if there is just one.
abbrev pub only : List Text → Option Text
only [] = none
only (x ∷ []) = some x
only (x ∷ y ∷ xs) = none

prefix_match_from_found :
    (x : Text) (opts : List Text) (p : Text)
    → prefix_match_from (some x) opts p ≡ only (x ∷ filter (λ o. has_prefix o p) opts)
unfolding prefix_match_from
prefix_match_from_found x [] p = refl
prefix_match_from_found x (o ∷ opts) p = ground (arith, prefix_match_from_found x opts p)

-- PrefixMatch answers with the only option that has the prefix, and with none if there is no such
-- option or more than one.
pub prefix_match-only :
    (opts : List Text) (p : Text) → prefix_match opts p ≡ only (filter (λ o. has_prefix o p) opts)
unfolding prefix_match
prefix_match-only [] p = refl
prefix_match-only (o ∷ opts) p =
    ground (arith, prefix_match_from_found o opts p, prefix_match-only opts p)

only_head : (x : Text) (xs : List Text) {r : Text} → only (x ∷ xs) ≡ some r → x ≡ r
only_head x [] h = cc h
only_head x (y ∷ xs) h = cc h

only_sound :
    (opts : List Text) (p r : Text)
    → only (filter (λ o. has_prefix o p) opts) ≡ some r
    → (elem r opts ≡ true) × (has_prefix r p ≡ true)
unfolding elem
only_sound [] p r h = cc h
only_sound (o ∷ opts) p r h = elim (Bool-cases (has_prefix o p)) [
  | inl starts ↦
      let same : o ≡ r = only_head o (filter (λ x. has_prefix x p) opts) (rw starts at h) in
      rw (← same) (rw (==ₜ_refl o), starts)
  | inr differs ↦ ground (arith, only_sound opts p r (rw differs at h))
]

-- What PrefixMatch answers is an option, and has the prefix.
pub prefix_match_sound :
    (opts : List Text) (p r : Text)
    → prefix_match opts p ≡ some r
    → (elem r opts ≡ true) × (has_prefix r p ≡ true)
prefix_match_sound opts p r h = only_sound opts p r (sym (prefix_match-only opts p) ∙ h)
