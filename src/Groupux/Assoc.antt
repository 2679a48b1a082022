-- ===== src/Groupux/Assoc.antt =====
-- Go maps as association lists, for any test of equality of keys.
use ddbot_nexus.Prelude.{
  if◌then◌else◌, Bool-cases, filter, ◌≡◌, refl, inl, inr, Bool, true, false, not, Option, none,
  some, List, [], ◌∷◌, arith,
}

module _ {ℓ κ} {K : Type ℓ} {V : Type κ} (eq : K → K → Bool) where
  -- `m[k]`
  unfoldable pub find : K → List (K × V) → Option V
  find k [] = none
  find k ((j, v) ∷ m) = if eq j k then some v else find k m

  -- `m[k] = v`
  unfoldable pub put : K → V → List (K × V) → List (K × V)
  put k v [] = (k, v) ∷ []
  put k v ((j, w) ∷ m) = let rest = put k v m in if eq j k then (j, v) ∷ m else (j, w) ∷ rest

  -- `delete(m, k)`
  unfoldable pub erase : K → List (K × V) → List (K × V)
  erase k m = filter (λ p. not (eq p.0 k)) m

  pub find-put_same :
      (k : K) (v : V) (m : List (K × V)) → eq k k ≡ true → find k (put k v m) ≡ some v
  unfolding find put
  find-put_same k v [] h = rw h
  find-put_same k v ((j, w) ∷ m) h = ground (arith, find-put_same k v m h)

  pub find-put_other :
      (k l : K) (v : V) (m : List (K × V))
      → eq k l ≡ false
      → ((j : K) → eq j k ≡ true → eq j l ≡ false)
      → find l (put k v m) ≡ find l m
  unfolding find put
  find-put_other k l v [] h apart = rw h
  find-put_other k l v ((j, w) ∷ m) h apart =
      ground (arith, find-put_other k l v m h apart, apart j)

  pub find-erase : (k : K) (m : List (K × V)) → find k (erase k m) ≡ none
  unfolding find erase
  find-erase k [] = refl
  find-erase k ((j, w) ∷ m) = ground (arith, find-erase k m)

  -- What is kept of a map still finds a value that is kept.
  pub find-filter :
      (keep : V → Bool) (k : K) (v : V) (m : List (K × V))
      → find k m ≡ some v
      → keep v ≡ true
      → find k (filter (λ p. keep p.1) m) ≡ some v
  unfolding find
  find-filter keep k v [] h hk = cc
  find-filter keep k v ((j, w) ∷ m) h hk = elim (Bool-cases (eq j k)) [
    | inl e ↦ ground (arith, find-filter keep k v m)
    | inr e ↦ ground (arith, find-filter keep k v m)
  ]
