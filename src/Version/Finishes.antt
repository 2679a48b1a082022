-- ===== src/Version/Finishes.antt =====
-- lsp/version/version.go, DoMigration: the loop ends, for a map whose versions increase.
use ddbot_nexus.Prelude.{
  Option-cases, Text, ==ₜ_refl, ℤ, pos, format_int, IsInt64, ℕ, zero, suc, ◌+◌, ◌^◌, ◌≤◌, ◌<◌, ◌≡◌,
  refl, sym, ap, ◌∙◌, ◌⊎◌, inl, inr, none, some, arith,
}
use ddbot_nexus.Version.{
  version_key, version_or_unknown, get_current_version, set_version, Migration, MigrationMap,
  migrate, finished, Ending, do_migration,
}
use ddbot_nexus.Buntdb.Interface.{Reply, BuntDb, BuntDbLaws, replaced, ok, Error, err, Reply-cases}
use ddbot_nexus.Buntdb.ShortCut.{
  Session, get_int64, set_int64, set, tx_of, with_tx, rw_cover, idle, inside,
}
use ddbot_nexus.Buntdb.Options.{no_option, ignore_not_found_opt, int64_wrapper, set_previous_int64}
use ddbot_nexus.Buntdb.ShortCut.Laws.{
  IsLive, or_empty, rw_cover-live, get_ignoring-read, read, set-IsLive, set_plain_reply, read-set,
  int64_wrapper-format_int, read-commit,
}

-- What a read of a version key is taken for.
version_of : Reply Text → ℤ
unfolding or_empty int64_wrapper
version_of r = version_or_unknown (int64_wrapper (or_empty r))

version_of-format_int : (z : ℤ) → IsInt64 z → version_of (ok (format_int z)) ≡ z
unfolding version_of or_empty
version_of-format_int z h = rw (int64_wrapper-format_int z h)

module _ ⦃b : BuntDb⦄ (l : BuntDbLaws b) (name : Text) where
  set_int64-set :
      (k : Text) (z : ℤ) (s : Session)
      → set_int64 k z no_option s ≡ set k (format_int z) no_option s
  unfolding set_int64
  set_int64-set k z s = refl

  current-live :
      (s : Session)
      → IsLive l s
      → get_current_version name s ≡ (version_of (read s (version_key name)), s)
  unfolding get_current_version version_of
  current-live s live =
      rw (rw_cover-live l (get_int64 (version_key name) (ignore_not_found_opt no_option)) s live)
        (unfold get_int64 in rw (get_ignoring-read l s (version_key name) live))

  set_version_lem :
      (s : Session) (z : ℤ)
      → IsLive l s
      → set_version name z s ≡ (
        ok (set_previous_int64 (pos 0) (replaced (read s (version_key name))).0),
        (set (version_key name) (format_int z) no_option s).1,
      )
  unfolding set_version
  set_version_lem s z live = rw (
    set_int64-set (version_key name) z s,
    set_plain_reply l s (version_key name) (format_int z) live,
  )

  -- The current version after a version is written in a live session.
  current-set_version :
      (s : Session) (z : ℤ)
      → IsLive l s
      → IsInt64 z
      → (get_current_version name (set_version name z s).1).0 ≡ z
  current-set_version s z live h =
      let key = version_key name in
      let s' = (set key (format_int z) no_option s).1 in
      rw
        (
          set_version_lem s z live,
          current-live s' (set-IsLive l s key (format_int z) no_option live),
          read-set l s key key (format_int z) no_option live,
          ==ₜ_refl key,
        )
        (version_of-format_int z h)

  -- The version that a transaction finds which is opened on the database.
  abbrev pub stored_version : b.Db → ℤ
  stored_version d = (get_current_version name (inside (l.begin d))).0

  stored_version-commit :
      (t : b.Tx) (s : Session)
      → IsLive l s
      → stored_version (l.snapshot (tx_of t s)) ≡ (get_current_version name s).0
  stored_version-commit t s live =
      let d = l.snapshot (tx_of t s) in
      ap (λ x. x.0) (current-live (inside (l.begin d)) (l.begin-Live d))
      ∙ ap version_of (read-commit l t s (version_key name) live)
      ∙ sym (ap (λ x. x.0) (current-live s live))

-- Every migration of the map leads to a greater version, at most `last`, and where it succeeds, it
-- leaves its transaction open. It may fail.
abbrev pub IsAscending : ⦃b : BuntDb⦄ → BuntDbLaws b → ℕ → MigrationMap → Type 0
IsAscending l last m =
    (n : ℕ) (mig : Migration)
    → m (pos n) ≡ some mig
    → (k : ℕ) × (mig.target_version ≡ pos k)
      × (n < k)
      × (k ≤ last)
      × ((s : Session) → IsLive l s → (mig.func s).0 ≡ ok tt → IsLive l (mig.func s).1)

module _ ⦃b : BuntDb⦄ (l : BuntDbLaws b) (name : Text) (m : MigrationMap) where
  migrate_end :
      (f n : ℕ) (s : Session)
      → IsLive l s
      → (get_current_version name s).0 ≡ pos n
      → m (pos n) ≡ none
      → migrate (suc f) name m s ≡ (ok finished, s)
  unfolding migrate
  migrate_end f n s live now h = rw (ap (λ x. x.1) (current-live l name s live), now, h)

  migrate_step :
      (f n : ℕ) (s : Session) (mig : Migration)
      → IsLive l s
      → (get_current_version name s).0 ≡ pos n
      → m (pos n) ≡ some mig
      → (mig.func s).0 ≡ ok tt
      → IsLive l (mig.func s).1
      → migrate (suc f) name m s
        ≡ migrate f name m (set_version name mig.target_version (mig.func s).1).1
  unfolding migrate
  migrate_step f n s mig live now h r live' = rw (
    ap (λ x. x.1) (current-live l name s live),
    now,
    h,
    r,
    ap (λ x. x.0) (set_version_lem l name (mig.func s).1 mig.target_version live'),
  )

  migrate_fail :
      (f n : ℕ) (s : Session) (mig : Migration) (e : Error)
      → IsLive l s
      → (get_current_version name s).0 ≡ pos n
      → m (pos n) ≡ some mig
      → (mig.func s).0 ≡ err e
      → (migrate (suc f) name m s).0 ≡ err e
  unfolding migrate
  migrate_fail f n s mig e live now h r =
      rw (ap (λ x. x.1) (current-live l name s live), now, h, r) refl

  set_version-IsLive : (s : Session) (z : ℤ) → IsLive l s → IsLive l (set_version name z s).1
  set_version-IsLive s z live =
      rw (set_version_lem l name s z live)
        (set-IsLive l s (version_key name) (format_int z) no_option live)

  -- The loop has ended at a version, at least `n`, from which the map leads no further.
  abbrev Ended : ℕ → Reply Ending × Session → Type 0
  Ended n x =
      (x.0 ≡ ok finished)
      × (k : ℕ) × ((get_current_version name x.1).0 ≡ pos k)
      × (m (pos k) ≡ none)
      × (n ≤ k)
      × IsLive l x.1

  earlier : (n k : ℕ) (x : Reply Ending × Session) → n < k → Ended k x → Ended n x
  earlier n k x up (r, j, now, stop, le, live) = (r, j, now, stop, omega arith, live)

  -- In a live session with version `n`, a loop with more fuel than versions are left comes to its end,
  -- or a migration fails and the loop with it.
  pub migrate_finishes :
      (last : ℕ)
      → last < 2 ^ 63
      → IsAscending l last m
      → (fuel n : ℕ) (s : Session) → IsLive l s
      → (get_current_version name s).0 ≡ pos n
      → n ≤ last
      → last < fuel + n
      → Ended n (migrate fuel name m s) ⊎ ((e : Error) × ((migrate fuel name m s).0 ≡ err e))
  migrate_finishes last small asc zero n s live now le more = absurd (omega arith)
  migrate_finishes last small asc (suc f) n s live now le more = elim (Option-cases (m (pos n))) [
    | inl h ↦ rw (migrate_end f n s live now h) (inl (refl, n, now, h, omega arith, live))
    | inr (mig, h) ↦
        let (k, target, up, top, works) = asc n mig h in
        elim (Reply-cases (mig.func s).0) [
          | inr (e, r) ↦ inr (e, migrate_fail f n s mig e live now h r)
          | inl (u, r) ↦
              let live' = works s live r in
              let s' = (set_version name mig.target_version (mig.func s).1).1 in
              let now' : (get_current_version name s').0 ≡ pos k =
                rw target (current-set_version l name (mig.func s).1 (pos k) live' (omega arith)) in
              let rest =
                migrate_finishes last small asc f k s'
                  (set_version-IsLive (mig.func s).1 mig.target_version live') now' top
                  (omega arith) in
              rw (migrate_step f n s mig live now h r live') (elim rest [
                | inl done ↦ inl (earlier n k (migrate f name m s') up done)
                | inr failed ↦ inr failed
              ])
        ]
  ]

  -- On a database with version `n`, with enough fuel and a map whose migrations each lead to a greater
  -- version, at most `last`, and leave the transaction open where they succeed: DoMigration either
  -- commits a version, at least `n`, from which the map leads no further, or is answered with an error,
  -- of a migration or of the commit, and leaves the database as it was.
  pub do_migration_whole :
      (last fuel n : ℕ) (d : b.Db)
      → last < 2 ^ 63
      → IsAscending l last m
      → stored_version l name d ≡ pos n
      → n ≤ last
      → last < fuel + n
      → ((d' : b.Db) × (k : ℕ) × (do_migration fuel name (some m) (idle d) ≡ (ok finished, idle d'))
          × (stored_version l name d' ≡ pos k)
          × (m (pos k) ≡ none)
          × (n ≤ k))
        ⊎ ((e : Error) × (do_migration fuel name (some m) (idle d) ≡ (err e, idle d)))
  unfolding do_migration rw_cover with_tx
  do_migration_whole last fuel n d small asc now le more =
      let t = l.begin d in
      let s' = (migrate fuel name m (inside t)).1 in
      elim (migrate_finishes last small asc fuel n (inside t) (l.begin-Live d) now le more) [
        | inr (e, failed) ↦ inr (
          e,
          ap (λ x. (x.0, idle x.1))
              (l.update_err Ending d (with_tx (migrate fuel name m)) e failed),
        )
        | inl (r, k, now', stop, up, live) ↦
            elim (l.update_ok Ending d (with_tx (migrate fuel name m)) finished r) [
              | inl q ↦ inl (
                l.snapshot (tx_of t s'),
                k,
                ap (λ x. (x.0, idle x.1)) q,
                stored_version-commit l name t s' live ∙ now',
                stop,
                up,
              )
              | inr (e, q) ↦ inr (e, ap (λ x. (x.0, idle x.1)) q)
            ]
      ]
