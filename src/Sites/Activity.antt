-- ===== src/Sites/Activity.antt =====
-- lsp/bilibili/stateManager.go, MarkLatestActive: the moment that is stored never goes back.
use ddbot_nexus.Prelude.{
  if◌then◌else◌, Bool-cases, ==ₜ_refl, ℤ, int_ltb, format_int, IsInt64, ◌≡◌, refl, ap, ◌∙◌, ◌⊎◌,
  inl, inr, Bool, true, false,
}
use ddbot_nexus.Sites.Bilibili.{active_timestamp_key, mark_latest_active, check_later}
use ddbot_nexus.Buntdb.Interface.{Error, BuntDb, BuntDbLaws, ok, err, replaced, rollback, Reply}
use ddbot_nexus.Buntdb.ShortCut.{
  rw_cover, idle, inside, Session, Act, continue, ◌>>=◌, tx_of, with_tx, set, set_int64,
}
use ddbot_nexus.Buntdb.ShortCut.Laws.{
  read, IsLive, set-IsLive, set_plain_reply, read-set, read-commit, previous-format_int,
}
use ddbot_nexus.Buntdb.Options.{no_option}

module _ ⦃b : BuntDb⦄ (l : BuntDbLaws b) (mid : ℤ) where
  -- What a transaction that is opened on the database finds as the latest activity.
  abbrev pub Stored : b.Db → ℤ → Type 0
  Stored d ts = read (inside (l.begin d)) (active_timestamp_key mid) ≡ ok (format_int ts)

  abbrev mark : ℤ → Act (Unit {0})
  mark ts = set_int64 (active_timestamp_key mid) ts no_option >>= check_later ts

  both :
      (c : Bool) (s : Session)
      → ◌≡◌ {A = Reply (Unit {0}) × Session}
          (if c then (err rollback, s) else (ok tt, s))
          (if c then err rollback else ok tt, s)
  both true s = refl
  both false s = refl

  mark_then_check :
      (old ts : ℤ) (s : Session)
      → IsLive l s
      → IsInt64 old
      → read s (active_timestamp_key mid) ≡ ok (format_int old)
      → mark ts s ≡ (
        if int_ltb ts old then err rollback else ok tt,
        (set (active_timestamp_key mid) (format_int ts) no_option s).1,
      )
  unfolding set_int64
  mark_then_check old ts s live small h =
      let s' = (set (active_timestamp_key mid) (format_int ts) no_option s).1 in
      ap (λ r. continue r (check_later ts) s')
        (set_plain_reply l s (active_timestamp_key mid) (format_int ts) live
          ∙ ap (λ r. ok (replaced r)) h)
      ∙ ap (λ p. if int_ltb ts p then (err rollback, s') else (ok tt, s'))
          (previous-format_int old small)
      ∙ both (int_ltb ts old) s'

  committed :
      (d : b.Db) (ts old : ℤ)
      → (mark ts (inside (l.begin d))).0 ≡ ok tt
      → (mark ts (inside (l.begin d))).1
        ≡ (set (active_timestamp_key mid) (format_int ts) no_option (inside (l.begin d))).1
      → int_ltb ts old ≡ false
      → (b.update (Unit {0}) d (with_tx (mark ts))
          ≡ (ok tt, l.snapshot (with_tx (mark ts) (l.begin d)).1))
        ⊎ ((e : Error) × (b.update (Unit {0}) d (with_tx (mark ts)) ≡ (err e, d)))
      → ((d' : b.Db) × (mark_latest_active mid ts (idle d) ≡ (ok tt, idle d'))
          × Stored d' ts
          × (int_ltb ts old ≡ false))
        ⊎ ((e : Error) × (mark_latest_active mid ts (idle d) ≡ (err e, idle d)))
  unfolding mark_latest_active rw_cover with_tx
  committed d ts old done after later (inr (e, q)) = inr (e, ap (λ x. (x.0, idle x.1)) q)
  committed d ts old done after later (inl q) =
      let t = l.begin d in
      let s' = (set (active_timestamp_key mid) (format_int ts) no_option (inside t)).1 in
      let live' : IsLive l s' =
        set-IsLive l (inside t) (active_timestamp_key mid) (format_int ts) no_option
          (l.begin-Live d) in
      inl (
        l.snapshot (tx_of t (mark ts (inside t)).1),
        ap (λ x. (x.0, idle x.1)) q,
        rw after (
            read-commit l t s' (active_timestamp_key mid) live'
            ∙ read-set l (inside t) (active_timestamp_key mid) (active_timestamp_key mid)
                (format_int ts) no_option (l.begin-Live d)
            ∙ rw (==ₜ_refl (active_timestamp_key mid))),
        later,
      )

  -- MarkLatestActive on a database with an earlier mark, in a transaction of its own: either the mark
  -- that is stored is the new moment, which is then not before the old one, or the reply is an error and
  -- the database is as it was.
  pub mark_latest_active_monotone :
      (d : b.Db) (old ts : ℤ)
      → IsInt64 old
      → Stored d old
      → ((d' : b.Db) × (mark_latest_active mid ts (idle d) ≡ (ok tt, idle d'))
          × Stored d' ts
          × (int_ltb ts old ≡ false))
        ⊎ ((e : Error) × (mark_latest_active mid ts (idle d) ≡ (err e, idle d)))
  unfolding mark_latest_active rw_cover with_tx
  mark_latest_active_monotone d old ts small h =
      let t = l.begin d in
      let live = l.begin-Live d in
      let marked = mark_then_check old ts (inside t) live small h in
      elim (Bool-cases (int_ltb ts old)) [
        | inl e ↦
            let undone : (mark ts (inside t)).0 ≡ err rollback = ap (λ x. x.0) marked ∙ rw e in
            inr (
              rollback,
              ap (λ x. (x.0, idle x.1))
                  (l.update_err (Unit {0}) d (with_tx (mark ts)) rollback undone),
            )
        | inr e ↦
            let done : (mark ts (inside t)).0 ≡ ok tt = ap (λ x. x.0) marked ∙ rw e in
            committed d ts old done (ap (λ x. x.1) marked) e
              (l.update_ok (Unit {0}) d (with_tx (mark ts)) tt done)
      ]
