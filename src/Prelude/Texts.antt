-- ===== src/Prelude/Texts.antt =====
-- Texts as lists of bytes: comparison, prefixes, joining and splitting at a separator byte.
use Prim.Native.Nat.{ℕ, compare, Ordering}
use Prim.Native.Char.{code}
use Prim.Native.String.{String}
use mathlib.Core.Path.{◌≡◌, refl}
use mathlib.Core.Logic.{◌↔◌}
use mathlib.Core.Bool.{Bool, true, false, ◌&&◌, ◌||◌, not}
use mathlib.Core.List.{List, [], ◌∷◌, ◌++◌}
use native.Mathlib.Omega.{arith}
use ddbot_nexus.Prelude.Tests.{◌==◌, if◌then◌else◌}
use ddbot_nexus.Prelude.Lists.{all}

abbrev pub Text : Type 0
Text = List ℕ

-- The bytes of a quoted ASCII text.
abbrev pub bytes : String → Text
bytes String.[] = []
bytes (String.◌∷◌ c s) = code c ∷ bytes s

infix 50 ◌==ₜ◌
unfoldable pub ◌==ₜ◌ : Text → Text → Bool
[] ==ₜ [] = true
[] ==ₜ (b ∷ t) = false
(a ∷ s) ==ₜ [] = false
(a ∷ s) ==ₜ (b ∷ t) = a == b && s ==ₜ t

-- Go's `<=` on strings: bytewise, the shorter first.
unfoldable pub text_leb : Text → Text → Bool
text_leb [] t = true
text_leb (a ∷ s) [] = false
text_leb (a ∷ s) (b ∷ t) =
    let rest = text_leb s t in
    elim (compare a b) [ Ordering.lt ↦ true | Ordering.eq ↦ rest | Ordering.gt ↦ false ]

pub ==ₜ_refl : (s : Text) → (s ==ₜ s) ≡ true
unfolding ◌==ₜ◌
==ₜ_refl [] = refl
==ₜ_refl (a ∷ s) = ground (arith, ==ₜ_refl s)

pub ==ₜ_eq : (s t : Text) → (s ==ₜ t) ≡ true → s ≡ t
unfolding ◌==ₜ◌
==ₜ_eq [] [] h = refl
==ₜ_eq [] (b ∷ t) h = cc
==ₜ_eq (a ∷ s) [] h = cc
==ₜ_eq (a ∷ s) (b ∷ t) h = ground (arith, ==ₜ_eq s t)

pub ==ₜ_iff : (s t : Text) → ((s ==ₜ t) ≡ true) ↔ (s ≡ t)
==ₜ_iff s t = (==ₜ_eq s t, λ e. rw e (==ₜ_refl t))

-- strings.HasPrefix(s, prefix)
unfoldable pub has_prefix : Text → Text → Bool
has_prefix s [] = true
has_prefix [] (p ∷ ps) = false
has_prefix (c ∷ s) (p ∷ ps) = c == p && has_prefix s ps

pub has_prefix-append : (p s : Text) → has_prefix (p ++ s) p ≡ true
unfolding has_prefix
has_prefix-append [] s = refl
has_prefix-append (c ∷ p) s = ground (arith, has_prefix-append p s)

pub has_prefix_same : (p s q : Text) → has_prefix (p ++ s) (p ++ q) ≡ has_prefix s q
unfolding has_prefix
has_prefix_same [] s q = refl
has_prefix_same (c ∷ p) s q = ground (arith, has_prefix_same p s q)

pub has_prefix_longer : (s t q : Text) → has_prefix s q ≡ true → has_prefix (s ++ t) q ≡ true
unfolding has_prefix
has_prefix_longer [] t [] h = refl
has_prefix_longer [] t (c ∷ q) h = cc
has_prefix_longer (d ∷ s) t [] h = refl
has_prefix_longer (d ∷ s) t (c ∷ q) h = ground (arith, has_prefix_longer s t q)

-- No byte of the text is `sep`.
abbrev pub lacks : ℕ → Text → Bool
lacks sep = all (λ c. not (c == sep))

-- strings.Join(parts, sep)
unfoldable pub join : ℕ → List Text → Text
join sep [] = []
join sep (p ∷ []) = p
join sep (p ∷ q ∷ ps) = p ++ sep ∷ join sep (q ∷ ps)

unfoldable pub cons_first : ℕ → List Text → List Text
cons_first c [] = (c ∷ []) ∷ []
cons_first c (p ∷ ps) = (c ∷ p) ∷ ps

-- strings.Split(s, sep)
unfoldable pub split_at : ℕ → Text → List Text
unfolding cons_first
split_at sep [] = [] ∷ []
split_at sep (c ∷ s) =
    let rest = split_at sep s in if c == sep then [] ∷ rest else cons_first c rest

pub split_at-append :
    (sep : ℕ) (p s : Text) → lacks sep p ≡ true → split_at sep (p ++ sep ∷ s) ≡ p ∷ split_at sep s
unfolding split_at
split_at-append sep [] s h = ground arith
split_at-append sep (c ∷ p) s h = ground (arith, split_at-append sep p s)

pub split_at_whole : (sep : ℕ) (p : Text) → lacks sep p ≡ true → split_at sep p ≡ p ∷ []
unfolding split_at
split_at_whole sep [] h = refl
split_at_whole sep (c ∷ p) h = ground (arith, split_at_whole sep p)

-- Splitting undoes joining, where no part holds the separator.
pub split_at-join :
    (sep : ℕ) (p : Text) (ps : List Text)
    → lacks sep p ≡ true
    → all (lacks sep) ps ≡ true
    → split_at sep (join sep (p ∷ ps)) ≡ p ∷ ps
unfolding join
split_at-join sep p [] h hs = split_at_whole sep p h
split_at-join sep p (q ∷ ps) h hs =
    ground (arith, split_at-append sep p (join sep (q ∷ ps)), split_at-join sep q ps)

-- Membership of a text in a list of texts.
unfoldable pub elem : Text → List Text → Bool
elem u [] = false
elem u (t ∷ ts) = u ==ₜ t || elem u ts
