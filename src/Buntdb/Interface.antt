-- ===== src/Buntdb/Interface.antt =====
-- What lsp/buntdb relies on of the package github.com/tidwall/buntdb, which is not part of the
-- repository: its operations as the fields of `BuntDb`, and its documented behaviour as the fields
-- of `BuntDbLaws`. Beside them, the errors of the program and the result of a fallible call.
use ddbot_nexus.Prelude.{
  if◌then◌else◌, Text, ◌==ₜ◌, ℤ, ℕ, ◌≡◌, refl, ◌⊎◌, inl, inr, Bool, true, false, Option, List, [],
}

-- The error values of the program's packages, and any other error by a number.
pub data Error : Type 0 where
  not_found index_exists : Error
  key_exist not_initialized rollback lock_not_hold : Error
  already_exists length_mismatch max_group_concern_exceed config_not_supported : Error
  permission_exist permission_not_exist permission_denied disabled global_disabled : Error
  global_silenced error_role unknown_version nil_migration_map invalid_key invalid_number : Error
  invalid_time nil_object other_site : Error
  site_not_supported type_not_supported index_out_of_range : Error
  other : ℕ → Error

pub data Reply {ℓ} (A : Type ℓ) : Type ℓ where
  ok : A → Reply A
  err : Error → Reply A

unfoldable pub is_rollback : Error → Bool
is_rollback rollback = true
is_rollback _ = false

unfoldable pub is_not_found : Error → Bool
is_not_found not_found = true
is_not_found _ = false

abbrev pub is_ok {ℓ} : {A : Type ℓ} → Reply A → Bool
is_ok (ok a) = true
is_ok (err e) = false

pub Reply-cases {ℓ} :
    {A : Type ℓ} (r : Reply A) → ((a : A) × (r ≡ ok a)) ⊎ ((e : Error) × (r ≡ err e))
Reply-cases (ok a) = inl (a, refl)
Reply-cases (err e) = inr (e, refl)

-- `set` returns the previous value and whether there was one; its last argument is a time to live.
-- `create_index` takes the index's name, its pattern, and whether values are ordered as texts.
-- `ascend` returns the entries of an index in the order in which the iterator meets them.
pub record BuntDb : Type 1 where
  pub Tx : Type 0
  pub get : Tx → Text → Bool → Reply Text
  pub set : Tx → Text → Text → Option ℕ → Reply (Text × Bool) × Tx
  pub delete : Tx → Text → Reply Text × Tx
  pub ttl : Tx → Text → Reply ℤ
  pub ascend : Tx → Text → Reply (List (Text × Text))
  pub create_index : Tx → Text → Text → Bool → Reply (Unit {0}) × Tx
  pub Db : Type 0
  pub update : (A : Type 0) → Db → (Tx → Reply A × Tx) → Reply A × Db
  pub view : (A : Type 0) → Db → (Tx → Reply A × Tx) → Reply A

-- What `set` answers, from what a read of the key finds.
abbrev pub replaced : Reply Text → Text × Bool
replaced (ok v) = (v, true)
replaced (err e) = ([], false)

-- `Live` is said of an open transaction that can write; `begin` is the transaction that `update`
-- opens on a database, and `snapshot` the database that its commit leaves.
pub record BuntDbLaws (b : BuntDb) : Type 1 where
  pub Live : b.Tx → Type 0
  pub begin : b.Db → b.Tx
  pub snapshot : b.Tx → b.Db
  pub get_reply :
      (t : b.Tx) (k : Text)
      → Live t
      → is_ok (b.get t k false) ≡ false
      → b.get t k false ≡ err not_found
  pub set_reply :
      (t : b.Tx) (k v : Text) (o : Option ℕ)
      → Live t
      → (b.set t k v o).0 ≡ ok (replaced (b.get t k false))
  pub set-Live : (t : b.Tx) (k v : Text) (o : Option ℕ) → Live t → Live (b.set t k v o).1
  pub get-set :
      (t : b.Tx) (k j v : Text) (o : Option ℕ)
      → Live t
      → b.get (b.set t k v o).1 j false ≡ (if k ==ₜ j then ok v else b.get t j false)
  pub delete_reply : (t : b.Tx) (k : Text) → Live t → (b.delete t k).0 ≡ b.get t k false
  pub delete-Live : (t : b.Tx) (k : Text) → Live t → Live (b.delete t k).1
  pub get-delete :
      (t : b.Tx) (k j : Text)
      → Live t
      → b.get (b.delete t k).1 j false ≡ (if k ==ₜ j then err not_found else b.get t j false)
  pub begin-Live : (d : b.Db) → Live (begin d)
  pub begin-snapshot : (t : b.Tx) (k : Text) → b.get (begin (snapshot t)) k false ≡ b.get t k false
  pub update_err :
      (A : Type 0) (d : b.Db) (f : b.Tx → Reply A × b.Tx) (e : Error)
      → (f (begin d)).0 ≡ err e
      → b.update A d f ≡ (err e, d)
  pub update_ok :
      (A : Type 0) (d : b.Db) (f : b.Tx → Reply A × b.Tx) (a : A)
      → (f (begin d)).0 ≡ ok a
      → (b.update A d f ≡ (ok a, snapshot (f (begin d)).1))
        ⊎ ((e : Error) × (b.update A d f ≡ (err e, d)))
