-- ===== src/Concern/Registry/Parse.antt =====
-- lsp/concern/registry.go, ParseRawSiteAndType: what it answers is registered, so the lookup whose
-- error GetConcernByParseSiteAndType drops cannot fail, and no index is out of range.
use ddbot_nexus.Prelude.{
  Bool-cases, all, is_empty, Text, ◌==ₜ◌, ==ₜ_refl, ==ₜ_eq, ==ₜ_iff, lacks, cons_first, split_at,
  split_at_whole, elem, ℕ, ◌≡◌, refl, ap, ◌∙◌, ◌≢◌, ◌⊎◌, inl, inr, Bool, true, false, not, Option,
  none, some, List, [], ◌∷◌, arith,
}
use mathlib.Core.Option.{some-injective}
use ddbot_nexus.ConcernType.{
  ConcernType, split, contain_all, type_separator, sort, split_parts, insert_sorted,
}
use ddbot_nexus.Concern.Registry.{
  Concern, sites_of, all_types, or_not_supported, then_reply, first_type, or_type_not_supported,
  choose_type, Center, get_concern_by_site, get_concern_types, parse_raw_site,
  parse_raw_site_and_type, get_concern_by_parse_site_and_type, get_concern_by_site_and_type,
  types_or_zero,
}
use ddbot_nexus.Concern.Registry.Laws.{
  concern_at, IsRegistry, sites_of_fresh, concern_map-concern_at, type_map-concern_at, answer_at,
  get_concern_by_site_and_type-concern_at,
}
use ddbot_nexus.ConcernType.Sets.{all-sort}
use ddbot_nexus.Utils.{prefix_match, quote, trim_byte}
use ddbot_nexus.Utils.Laws.{prefix_match_sound}
use ddbot_nexus.Buntdb.Interface.{Reply, index_out_of_range, ok, err, Error}

-- A site of the registry has its concern.
concern_at-elem :
    (site : Text) (cs : List Concern)
    → elem site (sites_of cs) ≡ true
    → (c : Concern) × (concern_at site cs ≡ some c)
unfolding concern_at elem
concern_at-elem site [] h = cc h
concern_at-elem site (c ∷ cs) h = elim (Bool-cases (c.site ==ₜ site)) [
  | inl e ↦ (c, rw e)
  | inr e ↦
      rw e (concern_at-elem site cs (ground (arith, ==ₜ_iff c.site site, ==ₜ_iff site c.site)))
]

all-elem :
    (p : Text → Bool) (x : Text) (xs : List Text) → all p xs ≡ true → elem x xs ≡ true → p x ≡ true
unfolding elem
all-elem p x [] h m = cc m
all-elem p x (y ∷ xs) h m = elim (Bool-cases (x ==ₜ y)) [
  | inl e ↦ rw (==ₜ_eq x y e) (ground arith)
  | inr e ↦ all-elem p x xs (ground arith) (rw e at m)
]

split_at-lacks : (sep : ℕ) (s : Text) → all (lacks sep) (split_at sep s) ≡ true
unfolding split_at
split_at-lacks sep [] = refl
split_at-lacks sep (c ∷ s) = ground (arith, split_at-lacks sep s)

cons_first_some : (c : ℕ) (ps : List Text) → is_empty (cons_first c ps) ≡ false
unfolding cons_first
cons_first_some c [] = refl
cons_first_some c (p ∷ ps) = refl

split_at_some : (sep c : ℕ) (s : Text) → is_empty (split_at sep (c ∷ s)) ≡ false
unfolding split_at
split_at_some sep c s = ground (arith, cons_first_some c (split_at sep s))

insert_sorted_some : (x : Text) (xs : List Text) → is_empty (insert_sorted x xs) ≡ false
unfolding insert_sorted
insert_sorted_some x [] = refl
insert_sorted_some x (y ∷ ys) = ground arith

sort_some : (xs : List Text) → is_empty (sort xs) ≡ is_empty xs
unfolding sort
sort_some [] = refl
sort_some (x ∷ xs) = insert_sorted_some x (sort xs)

-- A type that is not empty has a part.
split_some : (t : ConcernType) → is_empty t ≡ false → is_empty (split t) ≡ false
unfolding split split_parts
split_some [] h = h
split_some (c ∷ t) h =
    sort_some (split_at type_separator (c ∷ t)) ∙ split_at_some type_separator c t

all-lacks-split : (t : ConcernType) → all (lacks type_separator) (split t) ≡ true
unfolding split split_parts
all-lacks-split [] = refl
all-lacks-split (c ∷ t) =
    all-sort (lacks type_separator) (split_at type_separator (c ∷ t))
    ∙ split_at-lacks type_separator (c ∷ t)

-- A name with no separator is a type of one part.
split_whole :
    (c : ℕ) (u : Text) → lacks type_separator (c ∷ u) ≡ true → split (c ∷ u) ≡ (c ∷ u) ∷ []
unfolding split split_parts
split_whole c u h = ap sort (split_at_whole type_separator (c ∷ u) h) ∙ unfold sort in refl

-- A part of a type is one of the names of the type.
contain_all-part :
    (t u : ConcernType) → is_empty t ≡ false → elem u (split t) ≡ true → contain_all t u ≡ true
unfolding contain_all
contain_all-part t [] h m = rw h
contain_all-part t (c ∷ u) h m =
    let one : split (c ∷ u) ≡ (c ∷ u) ∷ [] =
      split_whole c u (all-elem (lacks type_separator) (c ∷ u) (split t) (all-lacks-split t) m) in
    rw (h, one) (ground arith)

or_type_not_supported_ok :
    (o : Option ConcernType) {t : ConcernType} → or_type_not_supported o ≡ ok t → o ≡ some t
or_type_not_supported_ok none h = cc h
or_type_not_supported_ok (some t) h = cc h

or_not_supported_ok {ℓ} :
    {A : Type ℓ} (o : Option A) {a : A} → or_not_supported o ≡ ok a → o ≡ some a
unfolding or_not_supported
or_not_supported_ok none h = cc h
or_not_supported_ok (some a) h = cc h

then_reply_ok {ℓ κ} :
    {A : Type ℓ} {B : Type κ} (r : Reply A) (f : A → Reply B) {c : B}
    → then_reply r f ≡ ok c
    → (a : A) × (r ≡ ok a) × (f a ≡ ok c)
then_reply_ok (ok a) f h = (a, refl, h)
then_reply_ok (err e) f h = cc h

first_type_ok : (ts : List ConcernType) {t : ConcernType} → first_type ts ≡ ok t → elem t ts ≡ true
unfolding first_type elem
first_type_ok [] h = cc h
first_type_ok (u ∷ ts) {t} h = let same : u ≡ t = cc h in rw (← same) (rw (==ₜ_refl u))

-- The type that is chosen is one of those that are offered.
choose_type_ok :
    (ts : List ConcernType) (raw : Text) {t : ConcernType}
    → choose_type ts raw ≡ ok t
    → elem t ts ≡ true
unfolding choose_type
choose_type_ok ts raw {t} h = elim (Bool-cases (is_empty raw)) [
  | inl e ↦ first_type_ok ts (rw e at h)
  | inr e ↦
      (prefix_match_sound ts raw t (or_type_not_supported_ok (prefix_match ts raw) (rw e at h))).0
]

first_type_total :
    (ts : List ConcernType) → is_empty ts ≡ false → first_type ts ≢ err index_out_of_range
unfolding first_type
first_type_total [] h e = cc h
first_type_total (t ∷ ts) h e = cc e

or_type_not_supported_in_range :
    (o : Option ConcernType) → or_type_not_supported o ≢ err index_out_of_range
or_type_not_supported_in_range none h = cc h
or_type_not_supported_in_range (some t) h = cc h

choose_type_total :
    (ts : List ConcernType) (raw : Text)
    → is_empty ts ≡ false
    → choose_type ts raw ≢ err index_out_of_range
unfolding choose_type
choose_type_total ts raw h = elim (Bool-cases (is_empty raw)) [
  | inl e ↦ λ k. first_type_total ts h (rw e at k)
  | inr e ↦ λ k. or_type_not_supported_in_range (prefix_match ts raw) (rw e at k)
]

typed_at :
    (site : Text) (cs : List Concern) {c : Concern}
    → all (λ d. not (is_empty (all_types d))) cs ≡ true
    → concern_at site cs ≡ some c
    → is_empty (all_types c) ≡ false
unfolding concern_at
typed_at site [] h e = cc e
typed_at site (d ∷ cs) {c} h e = elim (Bool-cases (d.site ==ₜ site)) [
  | inl m ↦ let same : d ≡ c = some-injective d c (rw m at e) in rw (← same) (ground arith)
  | inr m ↦ typed_at site cs (ground arith) (rw m at e)
]

then_reply_err {ℓ κ} :
    {A : Type ℓ} {B : Type κ} (r : Reply A) (f : A → Reply B) {e : Error}
    → then_reply r f ≡ err e
    → (r ≡ err e) ⊎ ((a : A) × (r ≡ ok a) × (f a ≡ err e))
then_reply_err (ok a) f h = inr (a, refl, h)
then_reply_err (err e) f h = inl (cc h)

or_not_supported_in_range {ℓ} :
    {A : Type ℓ} (o : Option A) → or_not_supported o ≢ err index_out_of_range
unfolding or_not_supported
or_not_supported_in_range none h = cc h
or_not_supported_in_range (some a) h = cc h

module _ {g : Center} (r : IsRegistry g) where
  types_at :
      (site : Text) {c : Concern}
      → concern_at site g.concern_list ≡ some c
      → get_concern_types g site ≡ ok (all_types c)
  unfolding get_concern_types get_concern_by_site or_not_supported
  types_at site e = rw (concern_map-concern_at site r, type_map-concern_at site r, e)

  site_ok :
      (raw : Text) {site : Text}
      → parse_raw_site g raw ≡ ok site
      → (c : Concern) × (concern_at site g.concern_list ≡ some c)
  unfolding parse_raw_site
  site_ok raw {site} h =
      let found = or_not_supported_ok (prefix_match g.concern_sites (trim_byte quote raw)) h in
      let m = (prefix_match_sound g.concern_sites (trim_byte quote raw) site found).0 in
      concern_at-elem site g.concern_list (rw (sites_of_fresh r) at m)

  parse_ok :
      (raw_site raw_type site : Text) (t : ConcernType)
      → parse_raw_site_and_type g raw_site raw_type ≡ ok (site, t)
      → (parse_raw_site g (trim_byte quote raw_site) ≡ ok site)
        × (choose_type (split (types_or_zero (get_concern_types g site))) (trim_byte quote raw_type)
            ≡ ok t)
  unfolding parse_raw_site_and_type
  parse_ok raw_site raw_type site t h =
      let (s, one, rest) =
        then_reply_ok (parse_raw_site g (trim_byte quote raw_site))
          (λ s.
            then_reply
              (choose_type (split (types_or_zero (get_concern_types g s)))
                (trim_byte quote raw_type))
              (λ u. ok (s, u)))
          h in
      let (u, two, same) =
        then_reply_ok
          (choose_type (split (types_or_zero (get_concern_types g s))) (trim_byte quote raw_type))
          (λ u. ok (s, u)) rest in
      let s-site : s ≡ site = cc same in
      let u-t : u ≡ t = cc same in (rw (← s-site) one, rw (← s-site, ← u-t) two)

  offered_at :
      (site : Text) {c : Concern} {t : ConcernType}
      → concern_at site g.concern_list ≡ some c
      → (raw : Text) → choose_type (split (types_or_zero (get_concern_types g site))) raw ≡ ok t
      → elem t (split (all_types c)) ≡ true
  offered_at site {c} at raw two =
      choose_type_ok (split (all_types c)) raw (rw (types_at site at) at two)

  answered :
      {o : Option Concern} {c : Concern}
      → o ≡ some c
      → (t : ConcernType) → contain_all (all_types c) t ≡ true
      → answer_at t o ≡ ok c
  unfolding answer_at
  answered at t part = rw (at, part)

  -- In such a registry, what ParseRawSiteAndType answers is a registered site with one of its types,
  -- so GetConcernByParseSiteAndType, which drops the error of its lookup, has the concern.
  pub get_concern_by_parse_site_and_type-concern_at :
      (raw_site raw_type site : Text) (t : ConcernType)
      → parse_raw_site_and_type g raw_site raw_type ≡ ok (site, t)
      → (c : Concern) × (concern_at site g.concern_list ≡ some c)
        × (elem t (split (all_types c)) ≡ true)
        × (get_concern_by_parse_site_and_type g raw_site raw_type ≡ ok (some c, site, t))
  get_concern_by_parse_site_and_type-concern_at raw_site raw_type site t h =
      let (one, two) = parse_ok raw_site raw_type site t h in
      let (c, at) = site_ok (trim_byte quote raw_site) one in
      let part = offered_at site at (trim_byte quote raw_type) two in
      let answer : get_concern_by_site_and_type g site t ≡ ok c =
        get_concern_by_site_and_type-concern_at g site t r
        ∙ answered at t
            (contain_all-part (all_types c) t (typed_at site g.concern_list r.typed at) part) in
      (c, at, part, unfold get_concern_by_parse_site_and_type in rw (h, answer))

  chosen_in_range :
      (site raw_type : Text)
      → (c : Concern) × (concern_at site g.concern_list ≡ some c)
      → then_reply {B = Text × ConcernType}
          (choose_type
            (split (types_or_zero (get_concern_types g site)))
            (trim_byte quote raw_type))
          (λ u. ok (site, u))
        ≢ err index_out_of_range
  chosen_in_range site raw_type (c, at) h =
      let ts = split (types_or_zero (get_concern_types g site)) in
      let some_type : is_empty ts ≡ false =
        rw (types_at site at)
          (split_some (all_types c) (typed_at site g.concern_list r.typed at)) in
      elim (then_reply_err (choose_type ts (trim_byte quote raw_type)) (λ u. ok (site, u)) h) [
        | inl e ↦ choose_type_total ts (trim_byte quote raw_type) some_type e
        | inr (u, one, e) ↦ cc e
      ]

  -- Parsing never reads past the end of a list of types.
  pub parse_raw_site_and_type_total :
      (raw_site raw_type : Text)
      → parse_raw_site_and_type g raw_site raw_type ≢ err index_out_of_range
  unfolding parse_raw_site_and_type
  parse_raw_site_and_type_total raw_site raw_type h =
      elim (then_reply_err (parse_raw_site g (trim_byte quote raw_site))
        (λ s.
          then_reply
            (choose_type (split (types_or_zero (get_concern_types g s))) (trim_byte quote raw_type))
            (λ u. ok (s, u)))
        h) [
          | inl e ↦
              or_not_supported_in_range
                (prefix_match g.concern_sites (trim_byte quote (trim_byte quote raw_site))) e
          | inr (s, one, e) ↦ chosen_in_range s raw_type (site_ok (trim_byte quote raw_site) one) e
        ]
