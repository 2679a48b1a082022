-- ===== src/Groupux/Manager/Due.antt =====
-- No digest stays past its time (FlushDue, lsp/groupux/manager.go).
use ddbot_nexus.Prelude.{
  ltb, Bool-cases, Text, ◌==ₜ◌, ==ₜ_eq, ℤ, ℕ, ◌<◌, ◌≡◌, refl, sym, ap, ◌∙◌, subst, inl, inr, true,
  false, Option, none, some, List, [], ◌∷◌, arith,
}
use ddbot_nexus.Groupux.Assoc.{find, erase, find-erase}
use ddbot_nexus.Groupux.Manager.{Manager, DigestBucket, Moment, QuietBuffer}
use ddbot_nexus.Groupux.Manager.Buffers.{
  flush_bucket, policy, get_override, remember, flush_buckets, flush_buffer, flush_buffers,
  flush_due,
}
use ddbot_nexus.Groupux.Types.{Override}

apart : (j k l : Text) → (j ==ₜ k) ≡ true → (k ==ₜ l) ≡ false → (j ==ₜ l) ≡ false
apart j k l h n = ap (λ x. x ==ₜ l) (==ₜ_eq j k h) ∙ n

find-erase_other :
    {V : Type 0} (k l : Text) (m : List (Text × V))
    → (k ==ₜ l) ≡ false
    → find ◌==ₜ◌ l (erase ◌==ₜ◌ k m) ≡ find ◌==ₜ◌ l m
unfolding find erase
find-erase_other k l [] h = refl
find-erase_other k l ((j, v) ∷ m) h = ground (arith, find-erase_other k l m h, apart j k l)

-- Erasing a key never makes another one found.
find-erase_less :
    {V : Type 0} (k l : Text) (b : V) (m : List (Text × V))
    → find ◌==ₜ◌ l (erase ◌==ₜ◌ k m) ≡ some b
    → find ◌==ₜ◌ l m ≡ some b
find-erase_less k l b m h = elim (Bool-cases (k ==ₜ l)) [
  | inl e ↦
      let gone =
        subst (λ x. find ◌==ₜ◌ x (erase ◌==ₜ◌ k m) ≡ none) (==ₜ_eq k l e) (find-erase ◌==ₜ◌ k m) in
      cc (gone, h)
  | inr e ↦ sym (find-erase_other k l m e) ∙ h
]

-- What a group overrides does not change which digests wait.
get_override-aggregate :
    (load : ℤ → Option Override) (group : ℤ) (m : Manager)
    → (get_override load group m).1.aggregate ≡ m.aggregate
unfolding get_override remember
get_override-aggregate load group m = ground arith

module _ (parse_duration : Text → Option ℤ) (load : ℤ → Option Override) (now : ℕ) where
  policy-aggregate :
      (group : ℤ) (m : Manager) → (policy parse_duration load group m).1.aggregate ≡ m.aggregate
  unfolding policy
  policy-aggregate group m = get_override-aggregate load group m

  flush_bucket_waits :
      (key : Text) (b : DigestBucket) (m : Manager)
      → ltb now b.flush_at ≡ true
      → (flush_bucket parse_duration load now key b m).1.aggregate ≡ m.aggregate
  unfolding flush_bucket
  flush_bucket_waits key b m h = rw h

  flush_bucket_goes :
      (key : Text) (b : DigestBucket) (m : Manager)
      → ltb now b.flush_at ≡ false
      → (flush_bucket parse_duration load now key b m).1.aggregate ≡ erase ◌==ₜ◌ key m.aggregate
  unfolding flush_bucket
  flush_bucket_goes key b m h = rw h (ap (erase ◌==ₜ◌ key) (policy-aggregate b.group_code m))

  flush_bucket_less :
      (key : Text) (b : DigestBucket) (m : Manager) (k : Text) (c : DigestBucket)
      → find ◌==ₜ◌ k (flush_bucket parse_duration load now key b m).1.aggregate ≡ some c
      → find ◌==ₜ◌ k m.aggregate ≡ some c
  flush_bucket_less key b m k c h = elim (Bool-cases (ltb now b.flush_at)) [
    | inl e ↦ subst (λ l. find ◌==ₜ◌ k l ≡ some c) (flush_bucket_waits key b m e) h
    | inr e ↦
        find-erase_less key k c m.aggregate
          (subst (λ l. find ◌==ₜ◌ k l ≡ some c) (flush_bucket_goes key b m e) h)
  ]

  flush_buckets_less :
      (bs : List (Text × DigestBucket)) (m : Manager) (k : Text) (c : DigestBucket)
      → find ◌==ₜ◌ k (flush_buckets parse_duration load now bs m).1.aggregate ≡ some c
      → find ◌==ₜ◌ k m.aggregate ≡ some c
  unfolding flush_buckets
  flush_buckets_less [] m k c h = h
  flush_buckets_less ((key, b) ∷ bs) m k c h =
      flush_bucket_less key b m k c
        (flush_buckets_less bs (flush_bucket parse_duration load now key b m).1 k c h)

  -- A bucket that is found first among those to go over, and is still there at the end, is not due.
  flush_buckets_due :
      (bs : List (Text × DigestBucket)) (m : Manager) (k : Text) (b c : DigestBucket)
      → find ◌==ₜ◌ k bs ≡ some b
      → find ◌==ₜ◌ k (flush_buckets parse_duration load now bs m).1.aggregate ≡ some c
      → ltb now b.flush_at ≡ true
  unfolding flush_buckets find
  flush_buckets_due [] m k b c hb hc = cc
  flush_buckets_due ((key, d) ∷ bs) m k b c hb hc =
      let after = (flush_bucket parse_duration load now key d m).1 in
      elim (Bool-cases (key ==ₜ k)) [
        | inr e ↦ flush_buckets_due bs after k b c (sym (rw e) ∙ hb) hc
        | inl e ↦ elim (Bool-cases (ltb now d.flush_at)) [
          | inl w ↦ ground arith
          | inr w ↦
              let there = flush_buckets_less bs after k c hc in
              let gone =
                subst (λ x. find ◌==ₜ◌ x (erase ◌==ₜ◌ key m.aggregate) ≡ none) (==ₜ_eq key k e)
                  (find-erase ◌==ₜ◌ key m.aggregate) in
              cc (gone, subst (λ l. find ◌==ₜ◌ k l ≡ some c) (flush_bucket_goes key d m w) there)
        ]
      ]

module _ (parse_duration : Text → Option ℤ) (load : ℤ → Option Override) (minute : ℕ) where
  flush_buffer-aggregate :
      (group : ℤ) (q : QuietBuffer) (m : Manager)
      → (flush_buffer parse_duration load minute group q m).1.aggregate ≡ m.aggregate
  unfolding flush_buffer
  flush_buffer-aggregate group q m = policy-aggregate parse_duration load 0 group m

  flush_buffers-aggregate :
      (qs : List (ℤ × QuietBuffer)) (m : Manager)
      → (flush_buffers parse_duration load minute qs m).1.aggregate ≡ m.aggregate
  unfolding flush_buffers
  flush_buffers-aggregate [] m = refl
  flush_buffers-aggregate ((group, q) ∷ qs) m =
      flush_buffers-aggregate qs (flush_buffer parse_duration load minute group q m).1
      ∙ flush_buffer-aggregate group q m

-- A bucket that waits after everything due was flushed waited before, and its time is still to come.
pub flush_due-aggregate :
    (parse_duration : Text → Option ℤ) (load : ℤ → Option Override) (now : Moment) (m : Manager)
    (k : Text) (b : DigestBucket)
    → find ◌==ₜ◌ k (flush_due parse_duration load now m).1.aggregate ≡ some b
    → (find ◌==ₜ◌ k m.aggregate ≡ some b) × (now.nanos < b.flush_at)
unfolding flush_due
flush_due-aggregate parse_duration load now m k b h =
    let after = (flush_buckets parse_duration load now.nanos m.aggregate m).1 in
    let kept =
      subst (λ l. find ◌==ₜ◌ k l ≡ some b)
        (flush_buffers-aggregate parse_duration load now.minute after.quiet after) h in
    let before = flush_buckets_less parse_duration load now.nanos m.aggregate m k b kept in
    let waits = flush_buckets_due parse_duration load now.nanos m.aggregate m k b b before kept in
    (before, ground arith)
