-- ===== src/Buntdb/ShortCut.antt =====
-- lsp/buntdb/shortcut.go: the helpers over a database, each in a transaction.
-- A session is the state that the helpers find: the global `db` not opened, a database with no
-- transaction in the goroutine's storage, or the transaction that an outer helper has put there.
-- The values that options store through pointers come back beside the result; a helper that returns
-- an error gives none, since no caller reads them then.
pub mod Laws
pub mod Removal
use ddbot_nexus.Buntdb.Options.{
  Options, add_int64, expire_option, forgive_not_found, get_ignore_expire_opt, ignore_not_found_opt,
  int64_of_residue, int64_residue, int64_wrapper, no_option, set_expire_opt,
  set_keep_last_expire_opt, set_no_over_write_opt, set_previous_int64, set_previous_string,
}
use ddbot_nexus.Prelude.{
  ltb, if◌then◌else◌, any, Text, bytes, has_prefix, elem, ℤ, pos, negsuc, format_int, parse_int, ℕ,
  zero, suc, ◌+◌, ◌-◌, ◌*◌, ◌%◌, ◌^◌, Bool, true, false, ◌&&◌, not, Option, none, some, List, [],
  ◌∷◌, ◌++◌,
}
use ddbot_nexus.Buntdb.Key.{KeyPart, text_part, named_key}
use ddbot_nexus.Buntdb.Interface.{
  BuntDb, Reply, is_not_found, invalid_number, ok, err, Error, is_ok, replaced, index_exists,
  not_initialized, rollback,
}

-- The session, and actions on it.
module _ ⦃b : BuntDb⦄ where
  open b use {Tx, Db}

  pub data Session : Type 0 where
    closed : Session
    idle : Db → Session
    inside : Tx → Session

  abbrev pub Act : Type 0 → Type 0
  Act A = Session → Reply A × Session

  abbrev pub continue : {A B : Type 0} → Reply A → (A → Act B) → Act B
  continue (ok a) f s = f a s
  continue (err e) f s = (err e, s)

  infixl 5 ◌>>=◌ ◌>>◌
  abbrev pub ◌>>=◌ : {A B : Type 0} → Act A → (A → Act B) → Act B
  ◌>>=◌ m f s = let (r, s') = m s in continue r f s'

  abbrev pub ◌>>◌ : {B : Type 0} → Act (Unit {0}) → Act B → Act B
  m >> n = m >>= λ _. n

  abbrev pub pure : {A : Type 0} → A → Act A
  pure a s = (ok a, s)

  abbrev pub throw : {A : Type 0} → Error → Act A
  throw e s = (err e, s)

  unfoldable pub tx_of : Tx → Session → Tx
  tx_of t (inside u) = u
  tx_of t closed = t
  tx_of t (idle d) = t

  -- An action with the transaction in the goroutine's storage.
  unfoldable pub with_tx : {A : Type 0} → Act A → Tx → Reply A × Tx
  unfolding tx_of
  with_tx m t = let (r, s) = m (inside t) in (r, tx_of t s)

  unfoldable pub rw_cover_tx : {A : Type 0} → (Tx → Reply A × Tx) → Act A
  rw_cover_tx f closed = (err not_initialized, closed)
  rw_cover_tx {A} f (idle d) = let (r, d') = b.update A d f in (r, idle d')
  rw_cover_tx f (inside t) = let (r, t') = f t in (r, inside t')

  unfoldable pub rw_cover : {A : Type 0} → Act A → Act A
  unfolding with_tx
  rw_cover m closed = (err not_initialized, closed)
  rw_cover {A} m (idle d) = let (r, d') = b.update A d (with_tx m) in (r, idle d')
  rw_cover m (inside t) = m (inside t)

  unfoldable pub r_cover_tx : {A : Type 0} → (Tx → Reply A × Tx) → Act A
  r_cover_tx f closed = (err not_initialized, closed)
  r_cover_tx {A} f (idle d) = (b.view A d f, idle d)
  r_cover_tx f (inside t) = let (r, t') = f t in (r, inside t')

  unfoldable pub r_cover : {A : Type 0} → Act A → Act A
  unfolding with_tx
  r_cover m closed = (err not_initialized, closed)
  r_cover {A} m (idle d) = (b.view A d (with_tx m), idle d)
  r_cover m (inside t) = m (inside t)

-- The operations on a key.
module _ ⦃b : BuntDb⦄ where
  open b use {Tx}

  last_expiry : Reply ℤ → Option ℕ
  last_expiry (ok d) = expire_option d
  last_expiry (err e) = none

  -- A write's expiry: that of the option, or what is left of the last one's.
  unfoldable pub write_expiry : Tx → Text → Options → Option ℕ
  unfolding expire_option last_expiry
  write_expiry t key o = elim (expire_option o.expire) [
    | some d ↦ some d
    | none ↦ if o.keep_last_expire then last_expiry (b.ttl t key) else none
  ]

  unfoldable pub no_over_write_reply : Bool → Reply (Text × Bool) → Reply (Text × Bool)
  no_over_write_reply no_over_write (err e) = err e
  no_over_write_reply no_over_write (ok (prev, replaced)) =
      if replaced && no_over_write then err rollback else ok (prev, replaced)

  unfoldable pub set_with_opts : Tx → Text → Text → Options → Reply (Text × Bool) × Tx
  unfolding write_expiry no_over_write_reply
  set_with_opts t key value o =
      let (r, t') = b.set t key value (write_expiry t key o) in
      (no_over_write_reply o.no_over_write r, t')

  unfoldable pub get_with_opts : Tx → Text → Options → Reply Text
  unfolding forgive_not_found
  get_with_opts t key o = forgive_not_found o.ignore_not_found (b.get t key o.ignore_expire)

  unfoldable pub delete_with_opts : Tx → Text → Options → Reply Text × Tx
  unfolding forgive_not_found
  delete_with_opts t key o =
      let (r, t') = b.delete t key in (forgive_not_found o.ignore_not_found r, t')

  unfoldable pub exist_with_opts : Tx → Text → Options → Bool
  exist_with_opts t key o = is_ok (b.get t key o.ignore_expire)

  unfoldable pub set : Text → Text → Options → Act (Text × Bool)
  unfolding set_with_opts
  set key value o = rw_cover_tx (λ t. set_with_opts t key value o)

  unfoldable pub get : Text → Options → Act Text
  unfolding get_with_opts
  get key o = r_cover_tx (λ t. (get_with_opts t key o, t))

  unfoldable pub delete : Text → Options → Act Text
  unfolding delete_with_opts
  delete key o = rw_cover_tx (λ t. delete_with_opts t key o)

  unfoldable pub or_false : Reply Bool → Bool
  or_false (ok x) = x
  or_false (err e) = false

  unfoldable pub exist : Text → Options → Session → Bool × Session
  unfolding exist_with_opts or_false
  exist key o s =
      let (r, s') = rw_cover_tx (λ t. (ok (exist_with_opts t key o), t)) s in (or_false r, s')

  unfoldable pub get_int64 : Text → Options → Act ℤ
  unfolding get int64_wrapper
  get_int64 key o s = let (r, s') = get key o s in (int64_wrapper r, s')

  unfoldable pub delete_int64 : Text → Options → Act ℤ
  unfolding delete int64_wrapper
  delete_int64 key o s = let (r, s') = delete key o s in (int64_wrapper r, s')

  unfoldable pub set_int64 : Text → ℤ → Options → Act (Text × Bool)
  unfolding set
  set_int64 key value o = set key (format_int value) o

  unfoldable pub inc_int64 : Text → ℤ → Act ℤ
  unfolding get_int64 set_int64 rw_cover add_int64
  inc_int64 key value = rw_cover do
    old ← get_int64 key (ignore_not_found_opt no_option)
    _ ← set_int64 key (add_int64 old value) no_option
    pure (add_int64 old value)

  unfoldable pub seq_next : Text → Act ℤ
  unfolding inc_int64
  seq_next key = inc_int64 key (pos 1)

-- The keys of `entries` with one of the prefixes, added to those that are marked already.
unfoldable pub mark_keys : List Text → List (Text × Text) → List Text → List Text
mark_keys prefixes [] marked = marked
mark_keys prefixes ((key, value) ∷ entries) marked =
    mark_keys prefixes entries
      (if any (has_prefix key) prefixes && not (elem key marked) then key ∷ marked else marked)

-- Removal by prefix, and the creation of indexes.
module _ ⦃b : BuntDb⦄ where
  open b use {Tx}

  unfoldable pub collect_keys : Tx → List Text → List Text → List Text → Reply (List Text)
  unfolding mark_keys
  collect_keys t prefixes [] marked = ok marked
  collect_keys t prefixes (index ∷ indexes) marked = elim (b.ascend t index) [
    | err e ↦ err e
    | ok entries ↦ collect_keys t prefixes indexes (mark_keys prefixes entries marked)
  ]

  -- The keys that were deleted, and the transaction after them.
  unfoldable pub delete_keys : Tx → List Text → List Text × Tx
  delete_keys t [] = ([], t)
  delete_keys t (key ∷ keys) =
      let (r, t') = b.delete t key in
      let (deleted, t'') = delete_keys t' keys in (if is_ok r then key ∷ deleted else deleted, t'')

  unfoldable pub delete_collected : Tx → Reply (List Text) → Reply (List Text) × Tx
  unfolding delete_keys
  delete_collected t (err e) = (err e, t)
  delete_collected t (ok keys) = let (deleted, t') = delete_keys t keys in (ok deleted, t')

  unfoldable pub remove_by_prefix_and_index : List Text → List Text → Act (List Text)
  unfolding collect_keys delete_collected rw_cover_tx
  remove_by_prefix_and_index prefixes indexes =
      rw_cover_tx (λ t. delete_collected t (collect_keys t prefixes indexes []))

  forgive_index_exists : Reply (Unit {0}) → Reply (Unit {0})
  forgive_index_exists (err index_exists) = ok tt
  forgive_index_exists r = r

  -- With no order given, the index is created twice, and the first answer is dropped.
  unfoldable pub create_pattern_index : Text → List KeyPart → Act (Unit {0})
  unfolding named_key forgive_index_exists rw_cover_tx
  create_pattern_index name suffix =
      let index = named_key name suffix in
      let pattern = named_key name (suffix ++ text_part (bytes "*") ∷ []) in
      rw_cover_tx λ t.
        let (r, t') = b.create_index t index pattern true in
        let (r', t'') = b.create_index t' index pattern false in (forgive_index_exists r', t'')
