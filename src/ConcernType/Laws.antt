-- ===== src/ConcernType/Laws.antt =====
-- What the operations of lsp/concern_type/type.go do to the set of names of a type.
use ddbot_nexus.Prelude.{
  any, all, filter, is_empty, Text, ==ₜ_refl, ==ₜ_iff, lacks, join, split_at-join, elem, ◌≡◌, refl,
  ◌∙◌, ◌↔◌, ◌⊎◌, inl, inr, Bool, true, false, ◌&&◌, ◌||◌, not, List, [], ◌∷◌, arith,
}
use ddbot_nexus.ConcernType.{
  contain_any, contain_all, add, remove, intersection, insert_types, delete_types, insert_all,
  ConcernType, sort, split_parts, split, combine, type_separator,
}
use ddbot_nexus.ConcernType.Sets.{
  elem-filter, elem_of_any, elem-insert_all, elem-insert_types, elem-delete_types, all-filter,
  all-insert_all, all-insert_types, all-delete_types, elem-sort, all-sort,
}

-- A name that a type may be built of.
abbrev pub is_name : Text → Bool
is_name u = lacks type_separator u && not (is_empty u)

-- No part of the type is empty, as in "live//news".
abbrev pub is_well_formed : ConcernType → Bool
is_well_formed t = all is_name (split t)

all-is_name-lacks : (ts : List Text) → all is_name ts ≡ true → all (lacks type_separator) ts ≡ true
all-is_name-lacks [] h = refl
all-is_name-lacks (t ∷ ts) h = ground (arith, all-is_name-lacks ts)

join_nonempty :
    (t : Text) (ts : List Text)
    → is_empty t ≡ false
    → is_empty (join type_separator (t ∷ ts)) ≡ false
unfolding join
join_nonempty [] ts h = cc
join_nonempty (c ∷ t) [] h = refl
join_nonempty (c ∷ t) (q ∷ ts) h = refl

split-join : (ts : List Text) → all is_name ts ≡ true → split (join type_separator ts) ≡ sort ts
unfolding split split_parts
split-join [] h = unfold join sort in refl
split-join (t ∷ ts) h = rw (
  join_nonempty t ts (ground arith),
  split_at-join type_separator t ts (ground arith) (all-is_name-lacks ts (ground arith)),
)

split-combine : (ts : List Text) → all is_name ts ≡ true → split (combine ts) ≡ sort (sort ts)
unfolding combine
split-combine [] h = unfold split sort in refl
split-combine (t ∷ ts) h = split-join (sort (t ∷ ts)) (all-sort is_name (t ∷ ts) ∙ h)

combine-is_well_formed :
    (ts : List Text) → all is_name ts ≡ true → is_well_formed (combine ts) ≡ true
combine-is_well_formed ts named =
    rw (split-combine ts named, all-sort is_name (sort ts), all-sort is_name ts) named

elem-combine :
    (u : Text) (ts : List Text) → all is_name ts ≡ true → elem u (split (combine ts)) ≡ elem u ts
elem-combine u ts named = rw (split-combine ts named, elem-sort u (sort ts), elem-sort u ts)

module _ (t : ConcernType) (os : List ConcernType) where
  all-union :
      is_well_formed t ≡ true
      → all is_well_formed os ≡ true
      → all is_name (insert_types os (insert_all (split t) [])) ≡ true
  all-union h hs =
      all-insert_types is_name os (insert_all (split t) []) hs
        (all-insert_all is_name (split t) [] h refl)

  all-difference :
      is_well_formed t ≡ true → all is_name (delete_types os (insert_all (split t) [])) ≡ true
  all-difference h =
      all-delete_types is_name os (insert_all (split t) [])
        (all-insert_all is_name (split t) [] h refl)

  -- Adding well-formed types to one leaves every part of the result a name.
  pub add-is_well_formed :
      is_well_formed t ≡ true → all is_well_formed os ≡ true → is_well_formed (add t os) ≡ true
  unfolding add
  add-is_well_formed h hs = combine-is_well_formed _ (all-union h hs)

  -- Removing types from a well-formed one leaves every part of the result a name.
  pub remove-is_well_formed : is_well_formed t ≡ true → is_well_formed (remove t os) ≡ true
  unfolding remove
  remove-is_well_formed h = combine-is_well_formed _ (all-difference h)

  -- For well-formed types, the names of `t.Add(os...)` are those of `t` and those of each of `os`.
  pub elem-add :
      (u : Text)
      → is_well_formed t ≡ true
      → all is_well_formed os ≡ true
      → elem u (split (add t os)) ≡ (elem u (split t) || elem_of_any u os)
  unfolding add elem
  elem-add u h hs =
      let s = insert_all (split t) [] in
      ground (
        arith,
        elem-combine u (insert_types os s) (all-union h hs),
        elem-insert_types u os s,
        elem-insert_all u (split t) [],
      )

  -- For a well-formed `t`, the names of `t.Remove(os...)` are those of `t` that are in none of `os`.
  pub elem-remove :
      (u : Text)
      → is_well_formed t ≡ true
      → elem u (split (remove t os)) ≡ (elem u (split t) && not (elem_of_any u os))
  unfolding remove elem
  elem-remove u h =
      let s = insert_all (split t) [] in
      ground (
        arith,
        elem-combine u (delete_types os s) (all-difference h),
        elem-delete_types u os s,
        elem-insert_all u (split t) [],
      )

-- For a well-formed `o`, the names of `t.Intersection(o)` are those in both.
pub elem-intersection :
    (u : Text) (t o : ConcernType)
    → is_well_formed o ≡ true
    → elem u (split (intersection t o)) ≡ (elem u (split t) && elem u (split o))
unfolding intersection elem
elem-intersection u t o h =
    let s = insert_all (split t) [] in
    ground (
      arith,
      elem-combine u (filter (λ (v : Text). elem v s) (split o))
          (all-filter is_name (λ (v : Text). elem v s) (split o) h),
      elem-filter u (λ (v : Text). elem v s) (split o),
      elem-insert_all u (split t) [],
    )

-- Every member of the first list is in the second.
abbrev pub Included : List Text → List Text → Type 0
Included us vs = (u : Text) → elem u us ≡ true → elem u vs ≡ true

all-elem : (us vs : List Text) → all (λ u. elem u vs) us ≡ true → Included us vs
unfolding elem
all-elem [] vs h = λ u m. cc
all-elem (t ∷ us) vs h = λ u m. ground (arith, ==ₜ_iff u t, all-elem us vs (ground arith) u)

elem-all : (us vs : List Text) → Included us vs → all (λ u. elem u vs) us ≡ true
unfolding elem
elem-all [] vs h = refl
elem-all (t ∷ us) vs h = ground (arith, h t, ==ₜ_refl t, elem-all us vs (λ u m. h u (ground arith)))

-- `t.ContainAll(o)` holds exactly when `o` is empty and `t` is not, or `o` is not empty and each of
-- its names is a name of `t`.
pub contain_all_iff :
    (t o : ConcernType)
    → (contain_all t o ≡ true) ↔ (
        ((is_empty o ≡ true) × (is_empty t ≡ false))
        ⊎ ((is_empty o ≡ false) × Included (split o) (split t)))
unfolding contain_all
contain_all_iff t o = (
  λ h. ground (arith, all-elem (split o) (split t)),
  λ h. ground (arith, elem-all (split o) (split t)),
)

Included-union :
    (t o p : ConcernType)
    → is_empty p ≡ false
    → (contain_all t p ≡ true) ⊎ (p ≡ o)
    → (u : Text) → elem u (split p) ≡ true
    → (elem u (split t) || elem_of_any u (o ∷ [])) ≡ true
Included-union t o p np (inl h) u m = elim ((contain_all_iff t p).0 h) [
  | inl both ↦ cc (both.0, np)
  | inr (_, inc) ↦ ground (arith, inc u m)
]
Included-union t o p np (inr e) u m = let here = rw e at m in ground arith

-- For well-formed types, `t.Add(o)` contains all of `o`, and all of what `t` contained, where these
-- are not empty.
pub contain_all-add :
    (t o p : ConcernType)
    → is_well_formed t ≡ true
    → is_well_formed o ≡ true
    → is_empty p ≡ false
    → (contain_all t p ≡ true) ⊎ (p ≡ o)
    → contain_all (add t (o ∷ [])) p ≡ true
contain_all-add t o p ht ho np q =
    (contain_all_iff (add t (o ∷ [])) p).1
      (inr (np, λ u m. elem-add t (o ∷ []) u ht (ground arith) ∙ Included-union t o p np q u m))

any-elem_none :
    (us vs : List Text)
    → ((u : Text) → elem u us ≡ true → elem u vs ≡ false)
    → any (λ u. elem u vs) us ≡ false
unfolding elem
any-elem_none [] vs h = refl
any-elem_none (t ∷ us) vs h =
    ground (arith, h t, ==ₜ_refl t, any-elem_none us vs (λ u m. h u (ground arith)))

-- For a well-formed `t` and a non-empty `o`, `t.Remove(o)` contains none of the names of `o`.
pub contain_any-remove :
    (t o : ConcernType)
    → is_well_formed t ≡ true
    → is_empty o ≡ false
    → contain_any (remove t (o ∷ [])) o ≡ false
unfolding contain_any
contain_any-remove t o ht nonempty = ground (
  arith,
  any-elem_none (split o) (split (remove t (o ∷ [])))
      (λ u m. ground (arith, elem-remove t (o ∷ []) u ht)),
)
