-- ===== src/Backup/Flags/Accepted.antt =====
-- backup/validate.go: exactly which combinations of flags are accepted.
use gpbackup.Base.{◌≡◌, ◌↔◌, true, not, ◌||◌, [], ◌∷◌, ◌==◌, nat_comparable, string_comparable}
use gpbackup.Base.Results.{ok}
use gpbackup.Options.{FlagSet}
use gpbackup.Options.Exclusive.{
  AtMostOne, check_exclusive_flags_lem, requires, all_ok-cons, all_ok-nil,
}
use gpbackup.Backup.Flags.{validate_flag_combinations}

-- gpbackup goes on exactly when the user gives at most one flag of each of the ten exclusive
-- groups, --copy-queue-size only with --single-data-file, --from-timestamp only with
-- --incremental, --incremental only with --leaf-partition-data, --no-inherits only with an
-- include-table flag and --single-backup-dir only with --backup-dir.
pub validate_flag_combinations_iff :
    (flags : FlagSet)
    → (validate_flag_combinations flags ≡ ok tt) ↔ (
        AtMostOne flags ("debug" ∷ "quiet" ∷ "verbose" ∷ [])
        × (AtMostOne flags ("data-only" ∷ "metadata-only" ∷ "incremental" ∷ [])
            × (AtMostOne flags (
                  "include-schema" ∷ "include-schema-file" ∷ "include-table" ∷ "include-table-file"
                  ∷ [])
                × (AtMostOne flags (
                      "exclude-schema" ∷ "exclude-schema-file" ∷ "include-schema"
                      ∷ "include-schema-file" ∷ [])
                    × (AtMostOne flags (
                          "exclude-schema" ∷ "exclude-schema-file" ∷ "exclude-table"
                          ∷ "include-table" ∷ "exclude-table-file" ∷ "include-table-file" ∷ [])
                        × (AtMostOne flags ("jobs" ∷ "metadata-only" ∷ "single-data-file" ∷ [])
                            × (AtMostOne flags ("metadata-only" ∷ "leaf-partition-data" ∷ [])
                                × (AtMostOne flags ("no-compression" ∷ "compression-type" ∷ [])
                                    × (AtMostOne flags ("no-compression" ∷ "compression-level" ∷ [])
                                        × (AtMostOne flags ("plugin-config" ∷ "backup-dir" ∷ [])
                                            × ((flags.changed "copy-queue-size" ≡ true
                                                  → flags.get_bool "single-data-file" ≡ true)
                                                × ((not (flags.get_string "from-timestamp" == "")
                                                        ≡ true
                                                      → flags.get_bool "incremental" ≡ true)
                                                    × ((flags.get_bool "incremental" ≡ true
                                                          → flags.get_bool "leaf-partition-data"
                                                            ≡ true)
                                                        × ((flags.get_bool "no-inherits" ≡ true
                                                            → (flags.changed "include-table"
                                                            || flags.changed "include-table-file")
                                                            ≡ true)
                                                            × ((flags.changed "single-backup-dir"
                                                            ≡ true
                                                            → flags.changed "backup-dir" ≡ true)
                                                            × (Unit {0}))))))))))))))))
unfolding validate_flag_combinations
validate_flag_combinations_iff flags =
    (all_ok-cons (check_exclusive_flags_lem flags ("debug" ∷ "quiet" ∷ "verbose" ∷ [])) (
      all_ok-cons
        (check_exclusive_flags_lem flags ("data-only" ∷ "metadata-only" ∷ "incremental" ∷ []))
        (all_ok-cons
          (check_exclusive_flags_lem flags (
            "include-schema" ∷ "include-schema-file" ∷ "include-table" ∷ "include-table-file" ∷ []))
          (all_ok-cons
            (check_exclusive_flags_lem flags (
              "exclude-schema" ∷ "exclude-schema-file" ∷ "include-schema" ∷ "include-schema-file"
              ∷ []))
            (all_ok-cons
              (check_exclusive_flags_lem flags (
                "exclude-schema" ∷ "exclude-schema-file" ∷ "exclude-table" ∷ "include-table"
                ∷ "exclude-table-file" ∷ "include-table-file" ∷ []))
              (all_ok-cons
                (check_exclusive_flags_lem flags
                  ("jobs" ∷ "metadata-only" ∷ "single-data-file" ∷ []))
                (all_ok-cons
                  (check_exclusive_flags_lem flags ("metadata-only" ∷ "leaf-partition-data" ∷ []))
                  (all_ok-cons
                    (check_exclusive_flags_lem flags ("no-compression" ∷ "compression-type" ∷ []))
                    (all_ok-cons
                      (check_exclusive_flags_lem flags
                        ("no-compression" ∷ "compression-level" ∷ []))
                      (all_ok-cons
                        (check_exclusive_flags_lem flags ("plugin-config" ∷ "backup-dir" ∷ []))
                        (all_ok-cons
                          (requires (flags.changed "copy-queue-size")
                            (flags.get_bool "single-data-file")
                            "--copy-queue-size must be specified with --single-data-file")
                          (all_ok-cons
                            (requires (not (flags.get_string "from-timestamp" == ""))
                              (flags.get_bool "incremental")
                              "--from-timestamp must be specified with --incremental")
                            (all_ok-cons
                              (requires (flags.get_bool "incremental")
                                (flags.get_bool "leaf-partition-data")
                                "--leaf-partition-data must be specified with --incremental")
                              (all_ok-cons
                                (requires (flags.get_bool "no-inherits")
                                  (flags.changed "include-table"
                                    || flags.changed "include-table-file")
                                  "--no-inherits must be specified with either --include-table or --include-table-file")
                                (all_ok-cons
                                  (requires (flags.changed "single-backup-dir")
                                    (flags.changed "backup-dir")
                                    "--single-backup-dir must be specified with --backup-dir")
                                  (all_ok-nil)))))))))))))))).iff
