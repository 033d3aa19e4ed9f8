-- ===== src/Backup/Flags.antt =====
-- backup/validate.go: which flags of gpbackup may stand together, and which values they take.
pub mod Accepted
use gpbackup.Base.{
  ℕ, zero, suc, ◌+◌, ◌-◌, ◌*◌, ◌/◌, ◌%◌, ◌≤◌, ◌<◌, String, ◌<>◌, len, slice, ◌≡◌, refl, sym, ap,
  subst, ◌∙◌, ◌≢◌, ◌↔◌, ◌⊎◌, inl, inr, Bool, true, false, not, ◌&&◌, ◌||◌, Option, none, some, List,
  [], ◌∷◌, ◌++◌, map, arith, ltb, leb, nat_beq, if◌then◌else◌, nat_beq_iff, ltb→lt, lt→ltb, leb→le,
  Bool-cases, Option-cases, &&_left, &&_right, Comparable, ◌==◌, nat_comparable, string_comparable,
  ==_refl, ==_sound, ==_sym, length, is_empty, get_elem?, drop, filter, All, length-append,
  filter-append, All-append, All-map,
}
use gpbackup.Base.Results.{Outcome, ok, fatal, ◌>>=◌, ◌>>◌, fatal_if, >>-eq-ok}
use gpbackup.Options.{FlagSet, check_exclusive_flags, all_ok}
use gpbackup.Utils.Text.{validate_full_path, validate_compression_type_and_level}

unfoldable pub validate_flag_combinations : FlagSet → Outcome (Unit {0})
unfolding check_exclusive_flags
validate_flag_combinations flags = all_ok (
    check_exclusive_flags flags ("debug" ∷ "quiet" ∷ "verbose" ∷ [])
    ∷ check_exclusive_flags flags ("data-only" ∷ "metadata-only" ∷ "incremental" ∷ [])
    ∷ check_exclusive_flags flags
        ("include-schema" ∷ "include-schema-file" ∷ "include-table" ∷ "include-table-file" ∷ [])
    ∷ check_exclusive_flags flags
        ("exclude-schema" ∷ "exclude-schema-file" ∷ "include-schema" ∷ "include-schema-file" ∷ [])
    ∷ check_exclusive_flags flags (
        "exclude-schema" ∷ "exclude-schema-file" ∷ "exclude-table" ∷ "include-table"
        ∷ "exclude-table-file" ∷ "include-table-file" ∷ [])
    ∷ check_exclusive_flags flags ("jobs" ∷ "metadata-only" ∷ "single-data-file" ∷ [])
    ∷ check_exclusive_flags flags ("metadata-only" ∷ "leaf-partition-data" ∷ [])
    ∷ check_exclusive_flags flags ("no-compression" ∷ "compression-type" ∷ [])
    ∷ check_exclusive_flags flags ("no-compression" ∷ "compression-level" ∷ [])
    ∷ check_exclusive_flags flags ("plugin-config" ∷ "backup-dir" ∷ [])
    ∷ fatal_if (flags.changed "copy-queue-size" && not (flags.get_bool "single-data-file"))
        "--copy-queue-size must be specified with --single-data-file"
    ∷ fatal_if (not (flags.get_string "from-timestamp" == "") && not (flags.get_bool "incremental"))
        "--from-timestamp must be specified with --incremental"
    ∷ fatal_if (flags.get_bool "incremental" && not (flags.get_bool "leaf-partition-data"))
        "--leaf-partition-data must be specified with --incremental"
    ∷ fatal_if
        (flags.get_bool "no-inherits"
          && not (flags.changed "include-table" || flags.changed "include-table-file"))
        "--no-inherits must be specified with either --include-table or --include-table-file"
    ∷ fatal_if (flags.changed "single-backup-dir" && not (flags.changed "backup-dir"))
        "--single-backup-dir must be specified with --backup-dir"
    ∷ [])

-- `is_valid_timestamp` is `filepath.IsValidTimestamp`, a regular expression.
unfoldable pub validate_flag_values : (String → Bool) → FlagSet → Outcome (Unit {0})
unfolding validate_full_path validate_compression_type_and_level
validate_flag_values is_valid_timestamp flags = all_ok (
    validate_full_path (flags.get_string "backup-dir")
    ∷ validate_full_path (flags.get_string "plugin-config")
    ∷ validate_compression_type_and_level (flags.get_string "compression-type")
        (flags.get_int "compression-level")
    ∷ fatal_if
        (not (flags.get_string "from-timestamp" == "")
          && not (is_valid_timestamp (flags.get_string "from-timestamp")))
        "Timestamp is invalid."
    ∷ fatal_if (flags.changed "copy-queue-size" && ltb (flags.get_int "copy-queue-size") 2)
        "--copy-queue-size is invalid. Must be at least 2"
    ∷ [])
