-- ===== src/Version.antt =====
-- lsp/version: the version of the data in the database, and the migrations between versions. A
-- migration function is an action; a migration map is what `From` returns.
pub mod Finishes
use ddbot_nexus.Prelude.{
  ◌==◌, Text, bytes, ℤ, pos, negsuc, ℕ, zero, suc, Bool, true, false, Option, none, some, List, [],
  ◌∷◌,
}
use ddbot_nexus.Buntdb.Interface.{BuntDb, Reply, ok, err, unknown_version, nil_migration_map}
use ddbot_nexus.Buntdb.Key.{KeyFamily, family_key, text_part, version}
use ddbot_nexus.Buntdb.Options.{no_option, ignore_not_found_opt, set_previous_int64}
use ddbot_nexus.Buntdb.ShortCut.{Session, Act, pure, rw_cover, get_int64, set_int64, ◌>>=◌, ◌>>◌}

unfoldable pub version_key : Text → Text
version_key name = family_key KeyFamily.version (text_part name ∷ [])

-- A version that cannot be read is -1.
abbrev pub version_or_unknown : Reply ℤ → ℤ
version_or_unknown (ok v) = v
version_or_unknown (err e) = negsuc 0

abbrev pub is_unknown : ℤ → Bool
is_unknown (pos n) = false
is_unknown (negsuc n) = n == 0

-- How a loop on fuel ends.
pub data Ending : Type 0 where
  finished out_of_fuel : Ending

module _ ⦃b : BuntDb⦄ where
  unfoldable pub get_current_version : Text → Session → ℤ × Session
  get_current_version name s =
      let (r, s') = rw_cover (get_int64 (version_key name) (ignore_not_found_opt no_option)) s in
      (version_or_unknown r, s')

  -- The old version comes back.
  unfoldable pub set_version : Text → ℤ → Act ℤ
  set_version name v = do
    outcome ← set_int64 (version_key name) v no_option
    pure (set_previous_int64 (pos 0) outcome.0)

  pub record Migration : Type 0 where
    pub func : Act (Unit {0})
    pub target_version : ℤ

  abbrev pub MigrationMap : Type 0
  MigrationMap = ℤ → Option Migration

  -- One round: is the version unknown, the migration from it, and what runs one and goes on.
  abbrev pub turn : Bool → Option Migration → (Migration → Act Ending) → Act Ending
  turn true o run s = (err unknown_version, s)
  turn false none run s = (ok finished, s)
  turn false (some mig) run s = run mig s

  -- The loop of DoMigration.
  unfoldable pub migrate : ℕ → Text → MigrationMap → Act Ending
  migrate zero name m s = (ok out_of_fuel, s)
  migrate (suc fuel) name m s =
      let (v, s') = get_current_version name s in
      turn (is_unknown v) (m v)
        (λ mig. mig.func >>= λ _. set_version name mig.target_version >>= λ _. migrate fuel name m)
        s'

  unfoldable pub do_migration : ℕ → Text → Option MigrationMap → Act Ending
  do_migration fuel name none s = (err nil_migration_map, s)
  do_migration fuel name (some m) s = rw_cover (migrate fuel name m) s

  -- Each function in turn, until one fails.
  unfoldable pub chain_migration : List (Act (Unit {0})) → Act (Unit {0})
  chain_migration [] = pure tt
  chain_migration (f ∷ fs) = f >> chain_migration fs

-- lsp/migrations.go: the program's own map, from version 0 to version 1. What V1 does is an argument.
abbrev pub lsp_version_name : Text
lsp_version_name = bytes "lsp"

module _ ⦃b : BuntDb⦄ where
  unfoldable pub lsp_migration_map : Act (Unit {0}) → MigrationMap
  lsp_migration_map v1 (pos zero) = some (record { func = v1; target_version = pos 1 })
  lsp_migration_map v1 (pos (suc n)) = none
  lsp_migration_map v1 (negsuc n) = none
