-- ===== src/Tests/OfFlags.antt =====
-- The theorems on the flags of gpbackup at concrete inputs.
use gpbackup.Base.{
  ◌≡◌, ◌↔◌, true, false, not, ◌||◌, [], ◌∷◌, ◌==◌, nat_comparable, string_comparable,
}
use gpbackup.Base.Counting.{contains}
use gpbackup.Base.Results.{ok}
use gpbackup.Backup.Objects.{unique_id_comparable}
use gpbackup.Backup.Incremental.Matching.{
  IncrementalFlags, matches_incremental_flags, matches_incremental_flags_iff, SameItems,
}
use gpbackup.Backup.Acl.{privilege_comparable}
use gpbackup.Options.{FlagSet}
use gpbackup.Options.Exclusive.{AtMostOne}
use gpbackup.Backup.Flags.{validate_flag_combinations}
use gpbackup.Backup.Flags.Accepted.{validate_flag_combinations_iff}

-- The flags of `gpbackup --dbname d --include-table t --leaf-partition-data --incremental`.
abbrev plain_flags : FlagSet
plain_flags = record {
  changed = λ name.
      contains name ("dbname" ∷ "include-table" ∷ "leaf-partition-data" ∷ "incremental" ∷ []);
  get_string = λ name. "";
  get_int = λ name. 1;
  get_bool = λ name. contains name ("leaf-partition-data" ∷ "incremental" ∷ []);
}

validate_flag_combinations_iff_example : (validate_flag_combinations plain_flags ≡ ok tt) ↔ (
    AtMostOne plain_flags ("debug" ∷ "quiet" ∷ "verbose" ∷ [])
    × (AtMostOne plain_flags ("data-only" ∷ "metadata-only" ∷ "incremental" ∷ [])
        × (AtMostOne plain_flags (
              "include-schema" ∷ "include-schema-file" ∷ "include-table" ∷ "include-table-file"
              ∷ [])
            × (AtMostOne plain_flags (
                  "exclude-schema" ∷ "exclude-schema-file" ∷ "include-schema"
                  ∷ "include-schema-file" ∷ [])
                × (AtMostOne plain_flags (
                      "exclude-schema" ∷ "exclude-schema-file" ∷ "exclude-table" ∷ "include-table"
                      ∷ "exclude-table-file" ∷ "include-table-file" ∷ [])
                    × (AtMostOne plain_flags ("jobs" ∷ "metadata-only" ∷ "single-data-file" ∷ [])
                        × (AtMostOne plain_flags ("metadata-only" ∷ "leaf-partition-data" ∷ [])
                            × (AtMostOne plain_flags ("no-compression" ∷ "compression-type" ∷ [])
                                × (AtMostOne plain_flags
                                      ("no-compression" ∷ "compression-level" ∷ [])
                                    × (AtMostOne plain_flags ("plugin-config" ∷ "backup-dir" ∷ [])
                                        × ((plain_flags.changed "copy-queue-size" ≡ true
                                              → plain_flags.get_bool "single-data-file" ≡ true)
                                            × ((not (plain_flags.get_string "from-timestamp" == "")
                                                    ≡ true
                                                  → plain_flags.get_bool "incremental" ≡ true)
                                                × ((plain_flags.get_bool "incremental" ≡ true
                                                      → plain_flags.get_bool "leaf-partition-data"
                                                        ≡ true)
                                                    × ((plain_flags.get_bool "no-inherits" ≡ true
                                                          → (plain_flags.changed "include-table"
                                                            || plain_flags.changed
                                                            "include-table-file")
                                                            ≡ true)
                                                        × ((plain_flags.changed "single-backup-dir"
                                                            ≡ true
                                                            → plain_flags.changed "backup-dir"
                                                            ≡ true)
                                                            × (Unit {0}))))))))))))))))
validate_flag_combinations_iff_example = validate_flag_combinations_iff plain_flags

abbrev full_backup : IncrementalFlags
full_backup = record {
  backup_dir = "/b";
  database_name = "d";
  leaf_partition_data = true;
  plugin = "";
  single_data_file = false;
  compressed = true;
  include_relations = "s.a" ∷ [];
  include_schemas = [];
  exclude_relations = [];
  exclude_schemas = [];
}

matches_incremental_flags_iff_example :
    (matches_incremental_flags (λ s. s) full_backup full_backup ≡ true) ↔ (
      (full_backup.backup_dir ≡ full_backup.backup_dir)
      × ((full_backup.database_name ≡ full_backup.database_name)
          × ((full_backup.leaf_partition_data ≡ full_backup.leaf_partition_data)
              × ((full_backup.plugin ≡ full_backup.plugin)
                  × ((full_backup.single_data_file ≡ full_backup.single_data_file)
                      × ((full_backup.compressed ≡ full_backup.compressed)
                          × (SameItems full_backup.include_relations full_backup.include_relations
                              × (SameItems full_backup.include_schemas full_backup.include_schemas
                                  × (SameItems full_backup.exclude_relations
                                        full_backup.exclude_relations
                                      × SameItems full_backup.exclude_schemas
                                          full_backup.exclude_schemas)))))))))
matches_incremental_flags_iff_example =
    matches_incremental_flags_iff (λ s. s) full_backup full_backup
