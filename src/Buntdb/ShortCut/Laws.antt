-- ===== src/Buntdb/ShortCut/Laws.antt =====
-- The helpers of lsp/buntdb/shortcut.go over a live transaction and over an idle database.
use ddbot_nexus.Prelude.{
  if◌then◌else◌, Text, ◌==ₜ◌, ℤ, pos, format_int, parse_int, IsInt64, parse_int-format_int, ◌≡◌,
  refl, ap, ◌∙◌, ◌⊎◌, inl, inr, true, false, some, [], ◌∷◌, arith,
}
use ddbot_nexus.Buntdb.Interface.{
  BuntDb, BuntDbLaws, Error, Reply-cases, err, Reply, is_ok, replaced, not_found, not_initialized,
  ok, is_not_found,
}
use ddbot_nexus.Buntdb.ShortCut.{
  get_with_opts, delete_with_opts, Act, with_tx, rw_cover, idle, Session, rw_cover_tx, r_cover_tx,
  write_expiry, no_over_write_reply, set, get, delete, exist, closed, inside, r_cover, tx_of,
}
use ddbot_nexus.Buntdb.Options.{
  forgive_not_found, Options, no_option, ignore_not_found_opt, int64_wrapper, set_previous_int64,
}

module _ ⦃b : BuntDb⦄ (l : BuntDbLaws b) where
  open l use {Live}

  -- An action on an idle database runs in the transaction that is opened on it, whole or not at all.
  -- Where the action answers with an error, so does RWCover, and the database is as it was. Where it
  -- succeeds, RWCover either answers the same and leaves the database that the action's transaction
  -- commits, or answers with an error of the commit and leaves the database as it was.
  pub rw_cover_atomic :
      {A : Type 0} (m : Act A) (d : b.Db)
      → let (r, s) = m (inside (l.begin d)) in
        ((e : Error) × (r ≡ err e) × (rw_cover m (idle d) ≡ (err e, idle d)))
        ⊎ ((a : A) × (r ≡ ok a)
            × ((rw_cover m (idle d) ≡ (ok a, idle (l.snapshot (tx_of (l.begin d) s))))
                ⊎ ((e : Error) × (rw_cover m (idle d) ≡ (err e, idle d)))))
  unfolding rw_cover with_tx
  rw_cover_atomic {A} m d = elim (Reply-cases (m (inside (l.begin d))).0) [
    | inl (a, p) ↦ inr (
      a,
      p,
      elim (l.update_ok A d (with_tx m) a p) [
        | inl q ↦ inl (ap (λ x. (x.0, idle x.1)) q)
        | inr (e, q) ↦ inr (e, ap (λ x. (x.0, idle x.1)) q)
      ],
    )
    | inr (e, p) ↦ inl (e, p, ap (λ x. (x.0, idle x.1)) (l.update_err A d (with_tx m) e p))
  ]

  -- The session is inside a live transaction.
  abbrev pub IsLive : Session → Type 0
  IsLive closed = ⊥
  IsLive (idle d) = ⊥
  IsLive (inside t) = Live t

module _ ⦃b : BuntDb⦄ where
  -- What the transaction of the session holds at a key.
  unfoldable pub read : Session → Text → Reply Text
  read closed k = err not_initialized
  read (idle d) k = err not_initialized
  read (inside t) k = b.get t k false

-- What a read finds, with an absent entry read as the empty text.
unfoldable pub or_empty : Reply Text → Reply Text
or_empty (ok v) = ok v
or_empty (err e) = ok []

forgive_none : (r : Reply Text) → forgive_not_found false r ≡ r
unfolding forgive_not_found
forgive_none (ok v) = refl
forgive_none (err e) = refl

forgive-or_empty :
    (r : Reply Text) → (is_ok r ≡ false → r ≡ err not_found) → forgive_not_found true r ≡ or_empty r
unfolding forgive_not_found or_empty is_not_found
forgive-or_empty (ok v) h = refl
forgive-or_empty (err e) h =
    let missing : err e ≡ err not_found = h refl in ap (forgive_not_found true) missing

module _ ⦃b : BuntDb⦄ (l : BuntDbLaws b) where
  -- In a transaction, a covered action is the action.
  pub r_cover-live : {A : Type 0} (m : Act A) (s : Session) → IsLive l s → r_cover m s ≡ m s
  unfolding r_cover
  r_cover-live m closed live = absurd live
  r_cover-live m (idle d) live = absurd live
  r_cover-live m (inside t) live = refl

  pub rw_cover-live : {A : Type 0} (m : Act A) (s : Session) → IsLive l s → rw_cover m s ≡ m s
  unfolding rw_cover
  rw_cover-live m closed live = absurd live
  rw_cover-live m (idle d) live = absurd live
  rw_cover-live m (inside t) live = refl

  -- A walk that leaves the transaction as it was leaves the session so.
  pub r_cover_tx-session :
      {A : Type 0} (f : b.Tx → Reply A × b.Tx) (s : Session)
      → IsLive l s
      → ((t : b.Tx) → (f t).1 ≡ t)
      → (r_cover_tx f s).1 ≡ s
  unfolding r_cover_tx
  r_cover_tx-session f closed live h = absurd live
  r_cover_tx-session f (idle d) live h = absurd live
  r_cover_tx-session f (inside t) live h = ap inside (h t)

  pub read_error :
      (s : Session) (k : Text) → IsLive l s → is_ok (read s k) ≡ false → read s k ≡ err not_found
  unfolding read
  read_error closed k live h = absurd live
  read_error (idle d) k live h = absurd live
  read_error (inside t) k live h = l.get_reply t k live h

  pub get-read : (s : Session) (k : Text) → IsLive l s → get k no_option s ≡ (read s k, s)
  unfolding read get r_cover_tx
  get-read closed k live = absurd live
  get-read (idle d) k live = absurd live
  get-read (inside t) k live =
      ap (λ r. (r, inside t)) (unfold get_with_opts in forgive_none (b.get t k false))

  pub get_ignoring-read :
      (s : Session) (k : Text)
      → IsLive l s
      → get k (ignore_not_found_opt no_option) s ≡ (or_empty (read s k), s)
  unfolding read get r_cover_tx
  get_ignoring-read closed k live = absurd live
  get_ignoring-read (idle d) k live = absurd live
  get_ignoring-read (inside t) k live =
      ap (λ r. (r, inside t))
        (unfold get_with_opts in forgive-or_empty (b.get t k false) (l.get_reply t k live))

  pub exist-read :
      (s : Session) (k : Text) → IsLive l s → exist k no_option s ≡ (is_ok (read s k), s)
  unfolding read exist rw_cover_tx
  exist-read closed k live = absurd live
  exist-read (idle d) k live = absurd live
  exist-read (inside t) k live = refl

  pub set-IsLive : (s : Session) (k v : Text) (o : Options) → IsLive l s → IsLive l (set k v o s).1
  unfolding set rw_cover_tx
  set-IsLive closed k v o live = absurd live
  set-IsLive (idle d) k v o live = absurd live
  set-IsLive (inside t) k v o live = l.set-Live t k v _ live

  pub set_reply :
      (s : Session) (k v : Text) (o : Options)
      → IsLive l s
      → (set k v o s).0 ≡ no_over_write_reply o.no_over_write (ok (replaced (read s k)))
  unfolding read set rw_cover_tx
  set_reply closed k v o live = absurd live
  set_reply (idle d) k v o live = absurd live
  set_reply (inside t) k v o live =
      ap (no_over_write_reply o.no_over_write) (l.set_reply t k v (write_expiry t k o) live)

  -- With no option, a write never fails in a live transaction.
  pub set_plain_reply :
      (s : Session) (k v : Text) → IsLive l s → (set k v no_option s).0 ≡ ok (replaced (read s k))
  set_plain_reply s k v live =
      set_reply s k v no_option live ∙ unfold no_over_write_reply in ground arith

  pub read-set :
      (s : Session) (k j v : Text) (o : Options)
      → IsLive l s
      → read (set k v o s).1 j ≡ (if k ==ₜ j then ok v else read s j)
  unfolding read set rw_cover_tx
  read-set closed k j v o live = absurd live
  read-set (idle d) k j v o live = absurd live
  read-set (inside t) k j v o live = l.get-set t k j v (write_expiry t k o) live

  pub delete-IsLive :
      (s : Session) (k : Text) (o : Options) → IsLive l s → IsLive l (delete k o s).1
  unfolding delete rw_cover_tx
  delete-IsLive closed k o live = absurd live
  delete-IsLive (idle d) k o live = absurd live
  delete-IsLive (inside t) k o live = l.delete-Live t k live

  pub delete_reply : (s : Session) (k : Text) → IsLive l s → (delete k no_option s).0 ≡ read s k
  unfolding read delete rw_cover_tx
  delete_reply closed k live = absurd live
  delete_reply (idle d) k live = absurd live
  delete_reply (inside t) k live =
      unfold delete_with_opts in (forgive_none (b.delete t k).0 ∙ l.delete_reply t k live)

  pub delete_ignoring_reply :
      (s : Session) (k : Text)
      → IsLive l s
      → (delete k (ignore_not_found_opt no_option) s).0 ≡ or_empty (read s k)
  unfolding read delete rw_cover_tx
  delete_ignoring_reply closed k live = absurd live
  delete_ignoring_reply (idle d) k live = absurd live
  delete_ignoring_reply (inside t) k live =
      unfold delete_with_opts in
      (ap (forgive_not_found true) (l.delete_reply t k live)
        ∙ forgive-or_empty (b.get t k false) (l.get_reply t k live))

  pub read-delete :
      (s : Session) (k j : Text) (o : Options)
      → IsLive l s
      → read (delete k o s).1 j ≡ (if k ==ₜ j then err not_found else read s j)
  unfolding read delete rw_cover_tx
  read-delete closed k j o live = absurd live
  read-delete (idle d) k j o live = absurd live
  read-delete (inside t) k j o live = l.get-delete t k j live

  -- The database that a session's transaction leaves reads as the session did.
  pub read-commit :
      (t : b.Tx) (s : Session) (k : Text)
      → IsLive l s
      → read (inside (l.begin (l.snapshot (tx_of t s)))) k ≡ read s k
  unfolding read tx_of
  read-commit t closed k live = absurd live
  read-commit t (idle d) k live = absurd live
  read-commit t (inside u) k live = l.begin-snapshot u k

int64_wrapper-parsed : (t : Text) (z : ℤ) → parse_int t ≡ some z → int64_wrapper (ok t) ≡ ok z
unfolding int64_wrapper
int64_wrapper-parsed [] z h = unfold parse_int in cc h
int64_wrapper-parsed (c ∷ t) z h = ground arith

-- What SetInt64 writes is read as the number.
pub int64_wrapper-format_int : (z : ℤ) → IsInt64 z → int64_wrapper (ok (format_int z)) ≡ ok z
int64_wrapper-format_int z h = int64_wrapper-parsed (format_int z) z (parse_int-format_int z h)

previous-parsed : (t : Text) (z : ℤ) → parse_int t ≡ some z → set_previous_int64 (pos 0) t ≡ z
unfolding set_previous_int64
previous-parsed [] z h = unfold parse_int in cc h
previous-parsed (c ∷ t) z h = ground arith

pub previous-format_int : (z : ℤ) → IsInt64 z → set_previous_int64 (pos 0) (format_int z) ≡ z
previous-format_int z h = previous-parsed (format_int z) z (parse_int-format_int z h)
