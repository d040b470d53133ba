-- ===== src/Storage/Migrations.antt =====
-- The version of the database's schema (src/storage/migrations.rs): the entry `schema_version` of the
-- table `meta`, or `none` where the entry or the table is not there. Errors of `redb` are left out.
use dsearch.Base.{
  ℕ, zero, suc, ◌≡◌, refl, Option, none, some, ltb, ◌==◌, if◌then◌else◌, Result, ok, err, arith,
}

abbrev pub current_schema_version : ℕ
current_schema_version = 1

-- The version of a database from the future.
pub data MigrationError : Type 0 where
  future_version : ℕ → MigrationError

unfoldable pub get_schema_version : Option ℕ → ℕ
get_schema_version none = 0
get_schema_version (some version) = version

-- The error, if any, and the entry that is left. The migrator has nothing to do: there is no
-- version below the current one that has tables.
unfoldable pub check_and_migrate : Option ℕ → Option MigrationError × Option ℕ
check_and_migrate meta =
    let version = get_schema_version meta in
    if ltb current_schema_version version
    then (some (future_version version), meta)
    else if version == current_schema_version
    then (none, meta)
    else (none, some current_schema_version)

-- On a path: a database that is not there has version 0.
unfoldable pub check_and_migrate_on_path :
    Option (Option ℕ) → Result ℕ MigrationError × Option (Option ℕ)
check_and_migrate_on_path none = (ok 0, none)
check_and_migrate_on_path (some meta) =
    let (error, meta') = check_and_migrate meta in
    elim error [ none ↦ (ok (get_schema_version meta'), some meta') | some e ↦ (err e, some meta') ]

-- A database that opens has the current version from then on, and opening it again changes nothing.
check_and_migrate_again :
    (meta : Option ℕ)
    → (check_and_migrate meta).0 ≡ none
    → let meta' = (check_and_migrate meta).1 in
      (get_schema_version meta' ≡ current_schema_version)
      × (check_and_migrate meta' ≡ (none, meta'))
unfolding check_and_migrate get_schema_version
check_and_migrate_again none h = (refl, refl)
check_and_migrate_again (some zero) h = (refl, refl)
check_and_migrate_again (some (suc zero)) h = (refl, refl)
check_and_migrate_again (some (suc (suc n))) h = absurd (ground arith)
