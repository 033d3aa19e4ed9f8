-- ===== src/Tests/OfRestoreSet.antt =====
-- The theorems on the flags of gprestore and on the backup set at concrete inputs.
use gpbackup.Base.{
  ℕ, ◌+◌, ◌*◌, ◌<◌, ◌≡◌, refl, ◌≢◌, ◌↔◌, ◌⊎◌, true, false, not, ◌||◌, [], ◌∷◌, arith, ◌==◌,
  nat_comparable, string_comparable,
}
use gpbackup.Base.Counting.{contains}
use gpbackup.Base.Results.{ok}
use gpbackup.Options.{FlagSet, check_exclusive_flags}
use gpbackup.Options.Exclusive.{AtMostOne, check_exclusive_flags_lem}
use gpbackup.Restore.Flags.{BackupConfig, validate_backup_flag_combinations}
use gpbackup.Restore.FilterLists.{
  get_filter_schemas_in_backup_set, get_filter_relations_in_backup_set,
}
use gpbackup.Restore.FilterLists.Missing.{get_filter_schemas_lem, get_filter_relations_lem}
use gpbackup.Restore.Resize.{get_resize_cluster_info, validate_safe_to_resize_cluster}
use gpbackup.Restore.Resize.Batches.{resize_covers, validate_safe_to_resize_cluster_lem}
use gpbackup.Toc.{Toc}
use gpbackup.Restore.Flags.Accepted.{validate_backup_flag_combinations_iff}

-- The flags of `gprestore --timestamp 20260101000000 --redirect-schema r --include-table t`.
abbrev restore_flags : FlagSet
restore_flags = record {
  changed = λ name. contains name ("timestamp" ∷ "redirect-schema" ∷ "include-table" ∷ []);
  get_string = λ name. "";
  get_int = λ name. 1;
  get_bool = λ name. false;
}

abbrev plain_config : BackupConfig
plain_config = record {
  single_data_file = true;
  include_table_filtered = false;
  data_only = false;
  metadata_only = false;
  plugin = "";
}

check_exclusive_flags_lem_example :
    (check_exclusive_flags restore_flags ("timestamp" ∷ "backup-dir" ∷ []) ≡ ok tt)
    ↔ AtMostOne restore_flags ("timestamp" ∷ "backup-dir" ∷ [])
check_exclusive_flags_lem_example =
    check_exclusive_flags_lem restore_flags ("timestamp" ∷ "backup-dir" ∷ [])

validate_backup_flag_combinations_iff_example :
    (validate_backup_flag_combinations plain_config restore_flags ≡ ok tt) ↔ (
      (plain_config.single_data_file ≡ true → (restore_flags.get_int "jobs" == 1) ≡ true)
      × (((plain_config.include_table_filtered || plain_config.data_only) ≡ true
            → restore_flags.get_bool "with-globals" ≡ false)
          × ((plain_config.metadata_only ≡ true → restore_flags.get_bool "data-only" ≡ false)
              × ((plain_config.data_only ≡ true → restore_flags.get_bool "metadata-only" ≡ false)
                  × ((not plain_config.single_data_file ≡ true
                        → restore_flags.changed "copy-queue-size" ≡ false)
                      × (((plain_config.plugin == "")
                            ≡ (restore_flags.get_string "plugin-plain_config" == ""))
                          × (Unit {0})))))))
validate_backup_flag_combinations_iff_example =
    validate_backup_flag_combinations_iff plain_config restore_flags

-- One table s.t in the backup.
abbrev one_table : Toc
one_table = record {
  global_entries = [];
  predata_entries =
      record {
        schema = "s";
        name = "t";
        object_type = "TABLE";
        reference_object = "";
        start_byte = 0;
        end_byte = 9;
        tier = [];
      }
      ∷ [];
  postdata_entries = [];
  statistics_entries = [];
  data_entries = [];
  ao = [];
}

get_filter_schemas_lem_example :
    contains "r" (get_filter_schemas_in_backup_set false one_table ("s" ∷ "r" ∷ [])) ≡ true
get_filter_schemas_lem_example = get_filter_schemas_lem false one_table ("s" ∷ "r" ∷ []) "r"

get_filter_relations_lem_example :
    contains "s.t" (get_filter_relations_in_backup_set one_table [] ("s.t" ∷ "s.u" ∷ [])) ≡ false
get_filter_relations_lem_example = get_filter_relations_lem one_table [] ("s.t" ∷ "s.u" ∷ []) "s.t"

resize_covers_example :
    (segment : ℕ) × (batch : ℕ) × (segment < 3)
    × (batch < (get_resize_cluster_info true 5 3).batches)
    × (4 ≡ segment + 3 * batch)
resize_covers_example = resize_covers 5 3 4 (omega arith) (omega arith)

abbrev saved_size : ℕ
saved_size = 5

abbrev cluster_size : ℕ
cluster_size = 3

validate_safe_to_resize_cluster_lem_example :
    (true ≡ true → (saved_size ≢ 0) × (saved_size ≢ cluster_size))
    × (true ≡ false → (saved_size ≡ 0) ⊎ (saved_size ≡ cluster_size))
unfolding validate_safe_to_resize_cluster
validate_safe_to_resize_cluster_lem_example =
    validate_safe_to_resize_cluster_lem true true saved_size cluster_size refl
