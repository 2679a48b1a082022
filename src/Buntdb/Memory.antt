-- ===== src/Buntdb/Memory.antt =====
-- A database in memory: a list of entries, without clocks. It shows that what the development asks
-- of the database package can hold, and it runs the tests.
use ddbot_nexus.Prelude.{
  if◌then◌else◌, filter, Text, ◌==ₜ◌, ==ₜ_iff, has_prefix, elem, negsuc, ℕ, ◌≡◌, refl, inl, Bool,
  false, Option, List, [], ◌∷◌, ◌++◌, arith,
}
use ddbot_nexus.Buntdb.Interface.{
  BuntDb, BuntDbLaws, Reply, is_ok, replaced, not_found, index_exists, ok, err, Error,
}

pub record Table : Type 0 where
  pub entries : List (Text × Text)
  pub indexes : List Text

unfoldable pub lookup : Text → List (Text × Text) → Reply Text
lookup k [] = err not_found
lookup k ((j, v) ∷ l) = if j ==ₜ k then ok v else lookup k l

unfoldable pub without : Text → List (Text × Text) → List (Text × Text)
without k [] = []
without k ((j, v) ∷ l) = let rest = without k l in if j ==ₜ k then rest else (j, v) ∷ rest

lookup-without :
    (k j : Text) (l : List (Text × Text))
    → lookup j (without k l) ≡ (if k ==ₜ j then err not_found else lookup j l)
unfolding lookup without
lookup-without k j [] = ground arith
lookup-without k j ((i, v) ∷ l) =
    ground (arith, lookup-without k j l, ==ₜ_iff i k, ==ₜ_iff i j, ==ₜ_iff k j)

lookup_error :
    (k : Text) (l : List (Text × Text)) → is_ok (lookup k l) ≡ false → lookup k l ≡ err not_found
unfolding lookup
lookup_error k [] h = refl
lookup_error k ((j, v) ∷ l) h = ground (arith, lookup_error k l)

unfoldable pub set_entry : Table → Text → Text → Option ℕ → Reply (Text × Bool) × Table
unfolding lookup without
set_entry t k v o =
    (ok (replaced (lookup k t.entries)), record t { entries = (k, v) ∷ without k t.entries })

unfoldable pub delete_entry : Table → Text → Reply Text × Table
unfolding lookup without
delete_entry t k = (lookup k t.entries, record t { entries = without k t.entries })

-- The entries of the pattern `name:*`.
unfoldable pub ascend_entries : Table → Text → Reply (List (Text × Text))
ascend_entries t name =
    if elem name t.indexes
    then ok (filter (λ e. has_prefix e.0 (name ++ b':' ∷ [])) t.entries)
    else err not_found

unfoldable pub index_entries : Table → Text → Text → Bool → Reply (Unit {0}) × Table
index_entries t name pattern as_text =
    if elem name t.indexes
    then (err index_exists, t)
    else (ok tt, record t { indexes = name ∷ t.indexes })

unfoldable pub keep_on_error : {A : Type 0} → Table → Reply A × Table → Reply A × Table
keep_on_error d (ok a, t) = (ok a, t)
keep_on_error d (err e, t) = (err e, d)

keep_on_error_err :
    {A : Type 0} (d : Table) (r : Reply A × Table) (e : Error)
    → r.0 ≡ err e
    → keep_on_error d r ≡ (err e, d)
unfolding keep_on_error
keep_on_error_err d (ok a, t) e h = cc
keep_on_error_err d (err e', t) e h = cc

keep_on_error_ok :
    {A : Type 0} (d : Table) (r : Reply A × Table) (a : A)
    → r.0 ≡ ok a
    → keep_on_error d r ≡ (ok a, r.1)
unfolding keep_on_error
keep_on_error_ok d (ok a', t) a h = cc
keep_on_error_ok d (err e, t) a h = cc

instance abbrev pub memory : BuntDb
memory = record {
  Tx = Table;
  get = λ t k x. lookup k t.entries;
  set = set_entry;
  delete = delete_entry;
  ttl = λ t k. elim (lookup k t.entries) [ ok v ↦ ok (negsuc 0) | err e ↦ err e ];
  ascend = ascend_entries;
  create_index = index_entries;
  Db = Table;
  update = λ A d f. keep_on_error d (f d);
  view = λ A d f. (f d).0;
}

-- The database in memory behaves as documented.
pub memory_laws : BuntDbLaws memory
unfolding set_entry delete_entry keep_on_error
memory_laws = record {
  Live = λ t. Unit;
  begin = λ d. d;
  snapshot = λ t. t;
  get_reply = λ t k l h. lookup_error k t.entries h;
  set_reply = λ t k v o l. refl;
  set-Live = λ t k v o l. tt;
  get-set = λ t k j v o l. unfold lookup in ground (arith, lookup-without k j t.entries);
  delete_reply = λ t k l. refl;
  delete-Live = λ t k l. tt;
  get-delete = λ t k j l. lookup-without k j t.entries;
  begin-Live = λ d. tt;
  begin-snapshot = λ t k. refl;
  update_err = λ A d f e h. keep_on_error_err d (f d) e h;
  update_ok = λ A d f a h. inl (keep_on_error_ok d (f d) a h);
}

-- Every table can be written.
pub memory_laws-Live : (t : Table) → memory_laws.Live t
unfolding memory_laws
memory_laws-Live t = tt

pub memory-begin : (d : Table) → memory_laws.begin d ≡ d
unfolding memory_laws
memory-begin d = refl
