-- ===== src/ConcernType/Sets.antt =====
-- The sets of names behind the operations of lsp/concern_type/type.go: membership, and predicates
-- that all members share, through sorting, insertion and deletion.
use ddbot_nexus.Prelude.{
  all, filter, any, ==ₜ_iff, elem, Text, ◌==ₜ◌, ◌≡◌, refl, Bool, true, ◌&&◌, ◌||◌, not, List, [],
  ◌∷◌, arith,
}
use ddbot_nexus.ConcernType.{
  insert_sorted, sort, set_insert, set_delete, insert_all, delete_all, insert_types, delete_types,
  split,
}

module _ (u : Text) where
  elem-insert_sorted :
      (x : Text) (xs : List Text) → elem u (insert_sorted x xs) ≡ (u ==ₜ x || elem u xs)
  unfolding elem insert_sorted
  elem-insert_sorted x [] = refl
  elem-insert_sorted x (y ∷ ys) = ground (arith, elem-insert_sorted x ys)

  pub elem-sort : (xs : List Text) → elem u (sort xs) ≡ elem u xs
  unfolding elem sort
  elem-sort [] = refl
  elem-sort (x ∷ xs) = ground (arith, elem-insert_sorted x (sort xs), elem-sort xs)

  elem-set_insert : (x : Text) (s : List Text) → elem u (set_insert x s) ≡ (u ==ₜ x || elem u s)
  unfolding elem set_insert
  elem-set_insert x s = ground (arith, ==ₜ_iff u x)

  pub elem-filter : (p : Text → Bool) (s : List Text) → elem u (filter p s) ≡ (p u && elem u s)
  unfolding elem
  elem-filter p [] = ground arith
  elem-filter p (x ∷ s) = ground (arith, elem-filter p s, ==ₜ_iff u x)

  pub elem-insert_all : (xs s : List Text) → elem u (insert_all xs s) ≡ (elem u xs || elem u s)
  unfolding elem insert_all
  elem-insert_all [] s = refl
  elem-insert_all (x ∷ xs) s =
      ground (arith, elem-insert_all xs (set_insert x s), elem-set_insert x s)

  elem-delete_all : (xs s : List Text) → elem u (delete_all xs s) ≡ (not (elem u xs) && elem u s)
  unfolding elem delete_all set_delete
  elem-delete_all [] s = refl
  elem-delete_all (x ∷ xs) s = ground (
    arith,
    elem-delete_all xs (set_delete x s),
    elem-filter (λ (y : Text). not (x ==ₜ y)) s,
    ==ₜ_iff u x,
    ==ₜ_iff x u,
  )

  -- Is the name in one of the types?
  abbrev pub elem_of_any : List Text → Bool
  elem_of_any = any (λ o. elem u (split o))

  pub elem-insert_types :
      (os s : List Text) → elem u (insert_types os s) ≡ (elem_of_any os || elem u s)
  unfolding insert_types
  elem-insert_types [] s = refl
  elem-insert_types (o ∷ os) s =
      ground (arith, elem-insert_types os (insert_all (split o) s), elem-insert_all (split o) s)

  pub elem-delete_types :
      (os s : List Text) → elem u (delete_types os s) ≡ (not (elem_of_any os) && elem u s)
  unfolding delete_types
  elem-delete_types [] s = refl
  elem-delete_types (o ∷ os) s =
      ground (arith, elem-delete_types os (delete_all (split o) s), elem-delete_all (split o) s)

module _ (p : Text → Bool) where
  all-insert_sorted : (x : Text) (xs : List Text) → all p (insert_sorted x xs) ≡ (p x && all p xs)
  unfolding insert_sorted
  all-insert_sorted x [] = refl
  all-insert_sorted x (y ∷ ys) = ground (arith, all-insert_sorted x ys)

  pub all-sort : (xs : List Text) → all p (sort xs) ≡ all p xs
  unfolding sort
  all-sort [] = refl
  all-sort (x ∷ xs) = ground (arith, all-insert_sorted x (sort xs), all-sort xs)

  pub all-filter : (q : Text → Bool) (xs : List Text) → all p xs ≡ true → all p (filter q xs) ≡ true
  all-filter q [] h = refl
  all-filter q (x ∷ xs) h = ground (arith, all-filter q xs)

  pub all-insert_all :
      (xs s : List Text) → all p xs ≡ true → all p s ≡ true → all p (insert_all xs s) ≡ true
  unfolding insert_all
  all-insert_all [] s h g = g
  all-insert_all (x ∷ xs) s h g =
      all-insert_all xs (set_insert x s) (ground arith) (unfold set_insert in ground arith)

  all-delete_all : (xs s : List Text) → all p s ≡ true → all p (delete_all xs s) ≡ true
  unfolding delete_all set_delete
  all-delete_all [] s g = g
  all-delete_all (x ∷ xs) s g = all-delete_all xs (set_delete x s) (all-filter _ s g)

  pub all-insert_types :
      (os s : List Text)
      → all (λ o. all p (split o)) os ≡ true
      → all p s ≡ true
      → all p (insert_types os s) ≡ true
  unfolding insert_types
  all-insert_types [] s h g = g
  all-insert_types (o ∷ os) s h g =
      all-insert_types os (insert_all (split o) s) (ground arith)
        (all-insert_all (split o) s (ground arith) g)

  pub all-delete_types : (os s : List Text) → all p s ≡ true → all p (delete_types os s) ≡ true
  unfolding delete_types
  all-delete_types [] s g = g
  all-delete_types (o ∷ os) s g =
      all-delete_types os (delete_all (split o) s) (all-delete_all (split o) s g)
