-- ===== src/Groupux/Manager/Digest.antt =====
-- No item that is pushed to a digest is lost (lsp/groupux/manager.go).
use ddbot_nexus.Prelude.{
  ltb, Bool-cases, length, ◌==ₜ◌, ==ₜ_refl, ℤ, pos, negsuc, ℕ, zero, suc, ◌+◌, ◌<◌, ◌≡◌, refl, ap,
  ◌⊎◌, inl, inr, true, Option, none, some, List, [], ◌∷◌, ◌++◌, arith,
}
use ddbot_nexus.Groupux.Assoc.{find, find-put_same, find-erase}
use ddbot_nexus.Groupux.Manager.{
  Manager, QuietSummaryItem, DigestBucket, PreparedDigest, Moment, lasting,
}
use ddbot_nexus.Groupux.Manager.Buffers.{
  aggregate_key, bucket_or_new, push_bucket, collecting, push_or_pass, push_aggregate,
}
use ddbot_nexus.ConcernType.{ConcernType}
use ddbot_nexus.Groupux.Policy.{aggregate_type_enabled}
use ddbot_nexus.Groupux.Types.{GroupUxPolicy}

abbrev pub items_of : Option DigestBucket → List QuietSummaryItem
items_of none = []
items_of (some b) = b.items

abbrev pub digest_items : Option PreparedDigest → List QuietSummaryItem
digest_items none = []
digest_items (some d) = d.items

-- The items that wait for a group's digest of a type.
abbrev pub waiting : ℤ → ConcernType → Manager → List QuietSummaryItem
waiting group t m = items_of (find ◌==ₜ◌ (aggregate_key group t) m.aggregate)

bucket_or_new_items :
    (group : ℤ) (t : ConcernType) (at : ℕ) (o : Option DigestBucket)
    → (bucket_or_new group t at o).items ≡ items_of o
bucket_or_new_items group t at none = refl
bucket_or_new_items group t at (some b) = refl

module _ (group : ℤ) (t : ConcernType) (item : QuietSummaryItem) (p : GroupUxPolicy)
    (m : Manager) where
  -- A pushed item either waits with those before it, or leaves in a digest with them.
  push_bucket_cases :
      (flush_at max_items : ℕ)
      → ((push_bucket group t item p flush_at max_items m).0 ≡ none)
          × (waiting group t (push_bucket group t item p flush_at max_items m).1
              ≡ waiting group t m ++ (item ∷ []))
          × (length (waiting group t m ++ (item ∷ [])) < max_items)
        ⊎ (digest_items (push_bucket group t item p flush_at max_items m).0
            ≡ waiting group t m ++ (item ∷ []))
          × (waiting group t (push_bucket group t item p flush_at max_items m).1 ≡ [])
  unfolding push_bucket
  push_bucket_cases flush_at max_items =
      let key = aggregate_key group t in
      let old = bucket_or_new group t flush_at (find ◌==ₜ◌ key m.aggregate) in
      let same = bucket_or_new_items group t flush_at (find ◌==ₜ◌ key m.aggregate) in
      let kept = record old { items = old.items ++ (item ∷ []) } in
      let items = ap (λ l. l ++ (item ∷ [])) same in
      elim (Bool-cases (ltb (length (old.items ++ (item ∷ []))) max_items)) [
        | inl e ↦ inl (
            (
              rw e,
              rw (e, find-put_same ◌==ₜ◌ key kept m.aggregate (==ₜ_refl key)) items,
              ground (arith, ap length items),
            ))
        | inr e ↦ inr ((rw e items, rw (e, find-erase ◌==ₜ◌ key m.aggregate)))
      ]

collecting_positive : (z : ℤ) (n : ℕ) → collecting z ≡ some n → 0 < n
unfolding collecting
collecting_positive (pos zero) n h = cc
collecting_positive (pos (suc zero)) n h = cc
collecting_positive (pos (suc (suc k))) n h = ground arith
collecting_positive (negsuc k) n h = cc

++-[] {ℓ} : {A : Type ℓ} (xs : List A) → xs ++ [] ≡ xs
++-[] [] = refl
++-[] (x ∷ xs) = ap (λ l. x ∷ l) (++-[] xs)

push_aggregate_on :
    (group : ℤ) (t : ConcernType) (item : QuietSummaryItem) (p : GroupUxPolicy) (now : Moment)
    (m : Manager) (window max_items : ℕ)
    → aggregate_type_enabled p t ≡ true
    → lasting p.notify.aggregate.window ≡ some window
    → collecting p.notify.aggregate.max_items ≡ some max_items
    → push_aggregate group t item p now m
      ≡ push_bucket group t item p (now.nanos + window) max_items m
unfolding push_aggregate push_or_pass
push_aggregate_on group t item p now m window max_items en hw hm = rw (en, hw, hm)

-- While a type is aggregated over a window, and more than one item is collected: the items of the
-- digest that is made, if any, and then those that still wait, are those that waited before and then
-- the new one; and fewer items wait than are collected.
pub push_aggregate_keeps :
    (group : ℤ) (t : ConcernType) (item : QuietSummaryItem) (p : GroupUxPolicy) (now : Moment)
    (m : Manager) (window max_items : ℕ)
    → aggregate_type_enabled p t ≡ true
    → lasting p.notify.aggregate.window ≡ some window
    → collecting p.notify.aggregate.max_items ≡ some max_items
    → (digest_items (push_aggregate group t item p now m).0
          ++ waiting group t (push_aggregate group t item p now m).1
        ≡ waiting group t m ++ (item ∷ []))
      × (length (waiting group t (push_aggregate group t item p now m).1) < max_items)
push_aggregate_keeps group t item p now m window max_items en hw hm =
    let r = push_bucket group t item p (now.nanos + window) max_items m in
    let positive = collecting_positive p.notify.aggregate.max_items max_items hm in
    rw (push_aggregate_on group t item p now m window max_items en hw hm)
      (elim (push_bucket_cases group t item p m (now.nanos + window) max_items) [
        | inl (none_made, wait, less) ↦ (rw (none_made, wait), rw wait less)
        | inr (made, wait) ↦
            (rw (made, wait) (++-[] (waiting group t m ++ (item ∷ []))), rw wait positive)
      ])
