-- ===== src/Concern/Registry/Laws.antt =====
-- What the registry of lsp/concern/registry.go keeps: sites are distinct, and the caches agree with
-- the list of concerns.
use ddbot_nexus.Prelude.{
  if◌then◌else◌, Bool-cases, all, filter, is_empty, Text, ◌==ₜ◌, ==ₜ_eq, ==ₜ_iff, elem, ◌≡◌, refl,
  sym, ap, ◌∙◌, subst, inl, inr, Bool, true, false, ◌&&◌, ◌||◌, not, Option, none, some, List, [],
  ◌∷◌, ◌++◌, arith,
}
use ddbot_nexus.Groupux.Assoc.{find, put}
use ddbot_nexus.Buntdb.Interface.{Reply, is_ok, site_not_supported, type_not_supported, ok, err}
use ddbot_nexus.Concern.Registry.{
  Concern, Center, all_types, sites_of, fresh_cache, new_concern_center, put_all, register,
  start_all, registered, find_not_trivial, register_checked, already_registered, no_types, panicked,
  or_not_supported, get_concern_by_site, type_checked, check_site_and_type, then_reply,
  get_concern_by_site_and_type,
}
use ddbot_nexus.ConcernType.{ConcernType, contain_all}

-- No text stands twice.
abbrev pub all_distinct : List Text → Bool
all_distinct [] = true
all_distinct (x ∷ xs) = not (elem x xs) && all_distinct xs

pub record IsRegistry (g : Center) : Type 0 where
  pub distinct : all_distinct (sites_of g.concern_list) ≡ true
  pub typed : all (λ c. not (is_empty (all_types c))) g.concern_list ≡ true
  pub fresh : fresh_cache g ≡ g

-- The first concern of the site.
unfoldable pub concern_at : Text → List Concern → Option Concern
concern_at site [] = none
concern_at site (c ∷ cs) = let rest = concern_at site cs in if c.site ==ₜ site then some c else rest

module _ {ℓ} {V : Type ℓ} where
  find-put_text :
      (k l : Text) (v : V) (m : List (Text × V))
      → find ◌==ₜ◌ l (put ◌==ₜ◌ k v m) ≡ (if k ==ₜ l then some v else find ◌==ₜ◌ l m)
  unfolding find put
  find-put_text k l v [] = refl
  find-put_text k l v ((j, w) ∷ m) =
      ground (arith, ==ₜ_iff j k, ==ₜ_iff j l, ==ₜ_iff k l, find-put_text k l v m)

  find-put_all_absent :
      (value : Concern → V) (site : Text) (cs : List Concern) (m : List (Text × V))
      → elem site (sites_of cs) ≡ false
      → find ◌==ₜ◌ site (put_all value cs m) ≡ find ◌==ₜ◌ site m
  unfolding put_all elem
  find-put_all_absent value site [] m h = refl
  find-put_all_absent value site (c ∷ cs) m h = ground (
    arith,
    find-put_all_absent value site cs (put ◌==ₜ◌ c.site (value c) m),
    find-put_text c.site site (value c) m,
    ==ₜ_iff c.site site,
    ==ₜ_iff site c.site,
  )

  -- The value at the first concern of the site.
  abbrev value_or : (Concern → V) → Option V → Option Concern → Option V
  value_or value otherwise none = otherwise
  value_or value otherwise (some c) = some (value c)

  find-put_all :
      (value : Concern → V) (site : Text) (cs : List Concern) (m : List (Text × V))
      → all_distinct (sites_of cs) ≡ true
      → find ◌==ₜ◌ site (put_all value cs m)
        ≡ value_or value (find ◌==ₜ◌ site m) (concern_at site cs)
  unfolding put_all concern_at
  find-put_all value site [] m h = refl
  find-put_all value site (c ∷ cs) m h = elim (Bool-cases (c.site ==ₜ site)) [
    | inl e ↦
        let same : c.site ≡ site = ==ₜ_eq c.site site e in
        let absent : elem site (sites_of cs) ≡ false = rw (← same) (ground arith) in
        rw e (
          find-put_all_absent value site cs (put ◌==ₜ◌ c.site (value c) m) absent
          ∙ find-put_text c.site site (value c) m
          ∙ rw e)
    | inr e ↦ rw e (
        find-put_all value site cs (put ◌==ₜ◌ c.site (value c) m) (ground arith)
        ∙ ap (λ o. value_or value o (concern_at site cs))
            (find-put_text c.site site (value c) m ∙ rw e))
  ]

-- Every registry that registrations and starts lead to.
pub data Reach : Center → Type 1 where
  new : Reach new_concern_center
  register_one :
      {g g' : Center} (c : Option Concern) → Reach g → register c g ≡ registered g' → Reach g'
  start : {g : Center} (f : Concern → Reply (Unit {0})) → Reach g → Reach (start_all f g)

elem_snoc :
    (x : Text) (c : Concern) (cs : List Concern)
    → elem x (sites_of (cs ++ c ∷ [])) ≡ (elem x (sites_of cs) || x ==ₜ c.site)
unfolding elem
elem_snoc x c [] = ground arith
elem_snoc x c (d ∷ cs) = ground (arith, elem_snoc x c cs)

distinct_snoc :
    (c : Concern) (cs : List Concern)
    → all_distinct (sites_of cs) ≡ true
    → elem c.site (sites_of cs) ≡ false
    → all_distinct (sites_of (cs ++ c ∷ [])) ≡ true
unfolding elem
distinct_snoc c [] h absent = refl
distinct_snoc c (d ∷ cs) h absent =
    ground (
      arith,
      distinct_snoc c cs,
      elem_snoc d.site c cs,
      ==ₜ_iff d.site c.site,
      ==ₜ_iff c.site d.site,
    )

all_snoc {ℓ} :
    {A : Type ℓ} (p : A → Bool) (x : A) (xs : List A)
    → all p xs ≡ true
    → p x ≡ true
    → all p (xs ++ x ∷ []) ≡ true
all_snoc p x [] h g = rw g
all_snoc p x (y ∷ xs) h g = ground (arith, all_snoc p x xs)

module _ (p : Concern → Bool) where
  absent-filter :
      (x : Text) (cs : List Concern)
      → elem x (sites_of cs) ≡ false
      → elem x (sites_of (filter p cs)) ≡ false
  unfolding elem
  absent-filter x [] h = refl
  absent-filter x (c ∷ cs) h = ground (arith, absent-filter x cs)

  distinct-filter :
      (cs : List Concern)
      → all_distinct (sites_of cs) ≡ true
      → all_distinct (sites_of (filter p cs)) ≡ true
  distinct-filter [] h = refl
  distinct-filter (c ∷ cs) h = ground (arith, distinct-filter cs, absent-filter c.site cs)

  all-filter :
      (q : Concern → Bool) (cs : List Concern) → all q cs ≡ true → all q (filter p cs) ≡ true
  all-filter q [] h = refl
  all-filter q (c ∷ cs) h = ground (arith, all-filter q cs)

abbrev with_list : List Concern → Center → Center
with_list cs g = fresh_cache (record g { concern_list = cs })

with_list-IsRegistry :
    (cs : List Concern) (g : Center)
    → all_distinct (sites_of cs) ≡ true
    → all (λ c. not (is_empty (all_types c))) cs ≡ true
    → IsRegistry (with_list cs g)
unfolding fresh_cache
with_list-IsRegistry cs g h t = record { distinct = h; typed = t; fresh = refl }

registered_same : {g h : Center} → registered g ≡ registered h → g ≡ h
registered_same e = cc e

register_checked-IsRegistry :
    (o : Option ConcernType) (c : Concern) (g : Center) {g' : Center}
    → IsRegistry g
    → elem c.site (sites_of g.concern_list) ≡ false
    → register_checked o c g ≡ registered g'
    → IsRegistry g'
unfolding register_checked
register_checked-IsRegistry (some t) c g r absent h = cc h
register_checked-IsRegistry none c g r absent h = elim (Bool-cases (is_empty (all_types c))) [
  | inl e ↦ cc (let h' : panicked (no_types c.site) ≡ registered _ = rw e at h in h')
  | inr e ↦ subst IsRegistry (registered_same (rw e at h)) (
      with_list-IsRegistry (g.concern_list ++ c ∷ []) g
        (distinct_snoc c g.concern_list r.distinct absent)
        (all_snoc (λ c. not (is_empty (all_types c))) c g.concern_list r.typed (rw e)))
]

register-IsRegistry :
    (o : Option Concern) (g : Center) {g' : Center}
    → IsRegistry g
    → register o g ≡ registered g'
    → IsRegistry g'
unfolding register
register-IsRegistry none g r h = cc h
register-IsRegistry (some c) g r h = elim (Bool-cases (elem c.site (sites_of g.concern_list))) [
  | inl e ↦ cc (let h' : panicked (already_registered c.site) ≡ registered _ = rw e at h in h')
  | inr e ↦ register_checked-IsRegistry (find_not_trivial c.types) c g r e (rw e at h)
]

start_all-IsRegistry :
    (f : Concern → Reply (Unit {0})) (g : Center) → IsRegistry g → IsRegistry (start_all f g)
unfolding start_all
start_all-IsRegistry f g r =
    with_list-IsRegistry (filter (λ c. is_ok (f c)) g.concern_list) g
      (distinct-filter (λ c. is_ok (f c)) g.concern_list r.distinct)
      (all-filter (λ c. is_ok (f c)) (λ c. not (is_empty (all_types c))) g.concern_list r.typed)

-- Whatever is registered and started, no site stands twice in the registry, every concern has a
-- type, and the caches are those of the list of concerns.
pub Reach-IsRegistry : {g : Center} → Reach g → IsRegistry g
unfolding new_concern_center fresh_cache
Reach-IsRegistry new = with_list-IsRegistry [] new_concern_center refl refl
Reach-IsRegistry (register_one {g} c r h) = register-IsRegistry c g (Reach-IsRegistry r) h
Reach-IsRegistry (start {g} f r) = start_all-IsRegistry f g (Reach-IsRegistry r)

map_of_fresh : {g : Center} → IsRegistry g → g.concern_map ≡ put_all (λ c. c) g.concern_list []
unfolding fresh_cache
map_of_fresh r = ap (λ x. x.concern_map) (sym r.fresh)

types_of_fresh :
    {g : Center} → IsRegistry g → g.concern_type_map ≡ put_all all_types g.concern_list []
unfolding fresh_cache
types_of_fresh r = ap (λ x. x.concern_type_map) (sym r.fresh)

pub sites_of_fresh : {g : Center} → IsRegistry g → g.concern_sites ≡ sites_of g.concern_list
unfolding fresh_cache
sites_of_fresh r = ap (λ x. x.concern_sites) (sym r.fresh)

same_concern : (o : Option Concern) → value_or (λ c. c) none o ≡ o
same_concern none = refl
same_concern (some c) = refl

pub concern_map-concern_at :
    (site : Text) {g : Center}
    → IsRegistry g
    → find ◌==ₜ◌ site g.concern_map ≡ concern_at site g.concern_list
unfolding find
concern_map-concern_at site {g} r = rw (map_of_fresh r) (
    find-put_all (λ c. c) site g.concern_list [] r.distinct
    ∙ same_concern (concern_at site g.concern_list))

pub type_map-concern_at :
    (site : Text) {g : Center}
    → IsRegistry g
    → find ◌==ₜ◌ site g.concern_type_map ≡ value_or all_types none (concern_at site g.concern_list)
unfolding find
type_map-concern_at site {g} r =
    rw (types_of_fresh r) (find-put_all all_types site g.concern_list [] r.distinct)

-- What a lookup by site and type is to answer, from the concern of the site.
unfoldable pub answer_at : ConcernType → Option Concern → Reply Concern
answer_at t none = err site_not_supported
answer_at t (some c) = if contain_all (all_types c) t then ok c else err type_not_supported

looked_up :
    (t : ConcernType) (o : Option Concern)
    → then_reply (type_checked t (value_or all_types none o)) (λ _. or_not_supported o)
      ≡ answer_at t o
unfolding type_checked or_not_supported answer_at
looked_up t none = refl
looked_up t (some c) = elim (Bool-cases (contain_all (all_types c) t)) [
  | inl e ↦ rw e
  | inr e ↦ rw e
]

-- In such a registry, GetConcernBySiteAndType answers with the concern of the site if its types
-- hold the one that is asked for, and else with the error for the site or for the type.
pub get_concern_by_site_and_type-concern_at :
    (g : Center) (site : Text) (t : ConcernType)
    → IsRegistry g
    → get_concern_by_site_and_type g site t ≡ answer_at t (concern_at site g.concern_list)
unfolding get_concern_by_site_and_type check_site_and_type get_concern_by_site
get_concern_by_site_and_type-concern_at g site t r =
    rw (concern_map-concern_at site r, type_map-concern_at site r)
      (looked_up t (concern_at site g.concern_list))
