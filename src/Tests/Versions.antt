-- ===== src/Tests/Versions.antt =====
-- Migrations (lsp/version) of a database that holds no version yet, which counts as version 0.
use ddbot_nexus.Prelude.{
  bytes, pos, ℕ, zero, suc, ◌≤◌, ◌<◌, ◌≡◌, refl, subst, ◌⊎◌, none, some, [], arith,
}
use mathlib.Core.Option.{some-injective}
use ddbot_nexus.Version.{
  do_migration, finished, get_current_version, lsp_version_name, lsp_migration_map,
}
use ddbot_nexus.Buntdb.Interface.{Error, ok, err, is_not_found}
use ddbot_nexus.Buntdb.ShortCut.{
  Session, ◌>>=◌, pure, set, idle, rw_cover, r_cover_tx, get_int64, Act,
}
use ddbot_nexus.Buntdb.Options.{no_option}
use ddbot_nexus.Buntdb.Memory.{Table, memory_laws, memory_laws-Live, memory, memory-begin, lookup}
use ddbot_nexus.Buntdb.ShortCut.Laws.{IsLive, set-IsLive, set_plain_reply}
use ddbot_nexus.Version.Finishes.{IsAscending, stored_version, do_migration_whole}

-- In place of V1, a migration that writes one key.
abbrev mark : Act (Unit {0})
mark = set (bytes "first") [] no_option >>= λ _. pure tt

abbrev empty_table : Table
empty_table = record { entries = []; indexes = [] }

mark-IsLive : (s : Session) → IsLive memory_laws s → IsLive memory_laws (mark s).1
mark-IsLive s live =
    rw (set_plain_reply memory_laws s (bytes "first") [] live)
      (set-IsLive memory_laws s (bytes "first") [] no_option live)

-- The program's map is ascending, for every V1 that leaves its transaction open.
lsp_migration_map-IsAscending :
    (v1 : Act (Unit {0}))
    → ((s : Session) → IsLive memory_laws s → IsLive memory_laws (v1 s).1)
    → IsAscending memory_laws 1 (lsp_migration_map v1)
unfolding lsp_migration_map
lsp_migration_map-IsAscending v1 stays zero mig h =
    subst
      (λ x.
        (k : ℕ) × (x.target_version ≡ pos k)
        × (0 < k)
        × (k ≤ 1)
        × ((s : Session)
            → IsLive memory_laws s
            → (x.func s).0 ≡ ok tt
            → IsLive memory_laws (x.func s).1))
      (some-injective (record { func = v1; target_version = pos 1 }) mig h)
      (1, refl, omega arith, omega arith, λ s live r. stays s live)
lsp_migration_map-IsAscending v1 stays (suc n) mig h = cc h

live : memory_laws.Live empty_table
live = memory_laws-Live empty_table

unversioned : stored_version memory_laws lsp_version_name empty_table ≡ pos 0
unfolding ddbot_nexus.Version.get_current_version ddbot_nexus.Buntdb.ShortCut.rw_cover
    ddbot_nexus.Buntdb.ShortCut.get_int64 ddbot_nexus.Buntdb.ShortCut.r_cover_tx
    ddbot_nexus.Buntdb.Memory.lookup ddbot_nexus.Buntdb.Interface.is_not_found
unversioned = rw (memory-begin empty_table)

do_migration_whole_example :
    ((d' : Table) × (k : ℕ) × (do_migration 2 lsp_version_name
          (some (lsp_migration_map mark))
          (idle empty_table)
        ≡ (ok finished, idle d'))
      × (stored_version memory_laws lsp_version_name d' ≡ pos k)
      × (lsp_migration_map mark (pos k) ≡ none)
      × (0 ≤ k))
    ⊎ ((e : Error) × (do_migration 2 lsp_version_name
            (some (lsp_migration_map mark))
            (idle empty_table)
          ≡ (err e, idle empty_table)))
do_migration_whole_example =
    do_migration_whole memory_laws lsp_version_name (lsp_migration_map mark) 1 2 0 empty_table
      (omega arith) (lsp_migration_map-IsAscending mark mark-IsLive) unversioned (omega arith)
      (omega arith)
