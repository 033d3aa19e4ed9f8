-- ===== src/Restore/Flags.antt =====
-- restore/validate.go: which flags of gprestore may stand together, and with which backup.
pub mod Accepted
use gpbackup.Base.{
  ℕ, zero, suc, ◌+◌, ◌-◌, ◌*◌, ◌/◌, ◌%◌, ◌≤◌, ◌<◌, String, ◌<>◌, len, slice, ◌≡◌, refl, sym, ap,
  subst, ◌∙◌, ◌≢◌, ◌↔◌, ◌⊎◌, inl, inr, Bool, true, false, not, ◌&&◌, ◌||◌, Option, none, some, List,
  [], ◌∷◌, ◌++◌, map, arith, ltb, leb, nat_beq, if◌then◌else◌, nat_beq_iff, ltb→lt, lt→ltb, leb→le,
  Bool-cases, Option-cases, &&_left, &&_right, Comparable, ◌==◌, nat_comparable, string_comparable,
  ==_refl, ==_sound, ==_sym, length, is_empty, get_elem?, drop, filter, All, length-append,
  filter-append, All-append, All-map,
}
use gpbackup.Base.Results.{Outcome, ok, fatal, ◌>>=◌, ◌>>◌, fatal_if, >>-eq-ok}
use gpbackup.Options.{FlagSet, check_exclusive_flags, all_ok}

abbrev pub excludes : FlagSet → Bool
excludes flags =
    flags.changed "exclude-schema"
    || flags.changed "exclude-schema-file"
    || flags.changed "exclude-table"
    || flags.changed "exclude-table-file"

abbrev pub includes : FlagSet → Bool
includes flags =
    flags.changed "include-table"
    || flags.changed "include-table-file"
    || flags.changed "include-schema"
    || flags.changed "include-schema-file"

unfoldable pub validate_flag_combinations : FlagSet → Outcome (Unit {0})
unfolding check_exclusive_flags
validate_flag_combinations flags = all_ok (
    check_exclusive_flags flags ("data-only" ∷ "with-globals" ∷ [])
    ∷ check_exclusive_flags flags ("data-only" ∷ "create-db" ∷ [])
    ∷ check_exclusive_flags flags ("debug" ∷ "quiet" ∷ "verbose" ∷ [])
    ∷ check_exclusive_flags flags ("include-schema" ∷ "include-table" ∷ "include-table-file" ∷ [])
    ∷ check_exclusive_flags flags ("exclude-schema" ∷ "include-schema" ∷ [])
    ∷ check_exclusive_flags flags (
        "exclude-schema" ∷ "exclude-table" ∷ "include-table" ∷ "exclude-table-file"
        ∷ "include-table-file" ∷ [])
    ∷ check_exclusive_flags flags ("metadata-only" ∷ "data-only" ∷ [])
    ∷ check_exclusive_flags flags ("plugin-config" ∷ "backup-dir" ∷ [])
    ∷ check_exclusive_flags flags ("truncate-table" ∷ "metadata-only" ∷ "incremental" ∷ [])
    ∷ check_exclusive_flags flags ("truncate-table" ∷ "redirect-schema" ∷ [])
    ∷ fatal_if (flags.changed "redirect-schema" && excludes flags)
        "Cannot use --redirect-schema with exclude flags"
    ∷ fatal_if (flags.changed "redirect-schema" && not (includes flags))
        "Cannot use --redirect-schema without an include flag"
    ∷ fatal_if
        ((flags.changed "truncate-table"
            && not (flags.changed "include-table" || flags.changed "include-table-file"))
          && not (flags.changed "data-only"))
        "Cannot use --truncate-table without --include-table or --include-table-file and without --data-only"
    ∷ fatal_if (flags.changed "incremental" && not (flags.changed "data-only"))
        "Cannot use --incremental without --data-only"
    ∷ fatal_if (not (flags.changed "timestamp") && not (flags.changed "backup-dir"))
        "Must provide --backup-dir if --timestamp is not provided"
    ∷ check_exclusive_flags flags ("run-analyze" ∷ "with-stats" ∷ [])
    ∷ [])

-- What the restore reads of the backup's configuration here.
pub record BackupConfig : Type 0 where
  pub single_data_file : Bool
  pub include_table_filtered : Bool
  pub data_only : Bool
  pub metadata_only : Bool
  pub plugin : String

unfoldable pub validate_backup_flag_plugin_combinations :
    BackupConfig → FlagSet → Outcome (Unit {0})
validate_backup_flag_plugin_combinations backup_config flags =
    if not (backup_config.plugin == "") && flags.get_string "plugin-config" == ""
    then fatal ("Backup was taken with plugin " <> backup_config.plugin)
    else if backup_config.plugin == "" && not (flags.get_string "plugin-config" == "")
    then fatal "The --plugin-config flag cannot be used to restore a backup taken without a plugin."
    else ok tt

unfoldable pub validate_backup_flag_combinations : BackupConfig → FlagSet → Outcome (Unit {0})
unfolding validate_backup_flag_plugin_combinations
validate_backup_flag_combinations backup_config flags = all_ok (
    fatal_if (backup_config.single_data_file && not (flags.get_int "jobs" == 1))
      "Cannot use jobs flag when restoring backups with a single data file per segment."
    ∷ fatal_if
        ((backup_config.include_table_filtered || backup_config.data_only)
          && flags.get_bool "with-globals")
        "Global metadata is not backed up in table-filtered or data-only backups."
    ∷ fatal_if (backup_config.metadata_only && flags.get_bool "data-only")
        "Cannot use data-only flag when restoring metadata-only backup"
    ∷ fatal_if (backup_config.data_only && flags.get_bool "metadata-only")
        "Cannot use metadata-only flag when restoring data-only backup"
    ∷ fatal_if (not backup_config.single_data_file && flags.changed "copy-queue-size")
        "The --copy-queue-size flag can only be used if the backup was taken with --single-data-file"
    ∷ validate_backup_flag_plugin_combinations backup_config flags
    ∷ [])
