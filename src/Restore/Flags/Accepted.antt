-- ===== src/Restore/Flags/Accepted.antt =====
-- restore/validate.go: exactly which combinations of flags are accepted.
use gpbackup.Base.{
  String, ◌≡◌, ◌↔◌, inl, inr, Bool, true, false, not, ◌&&◌, ◌||◌, arith, Bool-cases, ◌==◌,
  nat_comparable, string_comparable,
}
use gpbackup.Base.Results.{ok, fatal_if}
use gpbackup.Options.{FlagSet}
use gpbackup.Options.Exclusive.{requires, all_ok-cons, all_ok-nil, fatal_if-ok}
use gpbackup.Restore.Flags.{
  BackupConfig, validate_backup_flag_combinations, validate_backup_flag_plugin_combinations,
}

-- A guard that forbids `b` to whoever asks for `a`.
forbids : (a b : Bool) (e : String) → (fatal_if (a && b) e ≡ ok tt) ↔ (a ≡ true → b ≡ false)
forbids a b e = (
  λ h. let g = (fatal_if-ok (a && b) e).0 h in ground (arith, g),
  λ h. (fatal_if-ok (a && b) e).1 (ground (arith, h)),
)

plugin_iff :
    (config : BackupConfig) (flags : FlagSet)
    → (validate_backup_flag_plugin_combinations config flags ≡ ok tt)
      ↔ ((config.plugin == "") ≡ (flags.get_string "plugin-config" == ""))
unfolding validate_backup_flag_plugin_combinations
plugin_iff config flags = elim (Bool-cases (config.plugin == "")) [
  | inl e ↦ elim (Bool-cases (flags.get_string "plugin-config" == "")) [
    | inl f ↦ (λ h. rw (e, f), λ h. rw (e, f))
    | inr f ↦ rw (e, f) (λ h. cc, λ h. cc)
  ]
  | inr e ↦ elim (Bool-cases (flags.get_string "plugin-config" == "")) [
    | inl f ↦ rw (e, f) (λ h. cc, λ h. cc)
    | inr f ↦ (λ h. rw (e, f), λ h. rw (e, f))
  ]
]

-- The restore of a backup goes on exactly when the flags fit the backup: one job for a single data
-- file, no globals of a filtered or data-only backup, no data of a metadata-only and no metadata
-- of a data-only backup, a copy queue only with a single data file, and a plugin configuration
-- exactly when the backup was taken with a plugin.
pub validate_backup_flag_combinations_iff :
    (config : BackupConfig) (flags : FlagSet)
    → (validate_backup_flag_combinations config flags ≡ ok tt) ↔ (
        (config.single_data_file ≡ true → (flags.get_int "jobs" == 1) ≡ true)
        × (((config.include_table_filtered || config.data_only) ≡ true
              → flags.get_bool "with-globals" ≡ false)
            × ((config.metadata_only ≡ true → flags.get_bool "data-only" ≡ false)
                × ((config.data_only ≡ true → flags.get_bool "metadata-only" ≡ false)
                    × ((not config.single_data_file ≡ true
                          → flags.changed "copy-queue-size" ≡ false)
                        × (((config.plugin == "") ≡ (flags.get_string "plugin-config" == ""))
                            × (Unit {0})))))))
unfolding validate_backup_flag_combinations
validate_backup_flag_combinations_iff config flags =
    (all_ok-cons
      (requires config.single_data_file (flags.get_int "jobs" == 1)
        "Cannot use jobs flag when restoring backups with a single data file per segment.")
      (all_ok-cons
        (forbids (config.include_table_filtered || config.data_only) (flags.get_bool "with-globals")
          "Global metadata is not backed up in table-filtered or data-only backups.")
        (all_ok-cons
          (forbids config.metadata_only (flags.get_bool "data-only")
            "Cannot use data-only flag when restoring metadata-only backup")
          (all_ok-cons
            (forbids config.data_only (flags.get_bool "metadata-only")
              "Cannot use metadata-only flag when restoring data-only backup")
            (all_ok-cons
              (forbids (not config.single_data_file) (flags.changed "copy-queue-size")
                "The --copy-queue-size flag can only be used if the backup was taken with --single-data-file")
              (all_ok-cons (plugin_iff config flags) (all_ok-nil))))))).iff
