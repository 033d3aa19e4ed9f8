-- ===== src/Backup/Incremental/Matching.antt =====
-- backup/incremental.go: when an earlier backup can be the base of an incremental one.
use gpbackup.Base.{
  String, ◌≡◌, ◌↔◌, Bool, true, false, not, ◌&&◌, List, arith, &&_left, &&_right, ◌==◌,
  nat_comparable, string_comparable,
}
use gpbackup.Base.Counting.{contains}
use gpbackup.Utils.FilterSet.{new_include_set, equals}
use gpbackup.Utils.FilterSet.Laws.{equals_iff}

-- What is compared of the earlier backup's configuration, and of the current one with its flags.
pub record IncrementalFlags : Type 0 where
  pub backup_dir : String
  pub database_name : String
  pub leaf_partition_data : Bool
  pub plugin : String
  pub single_data_file : Bool
  pub compressed : Bool
  pub include_relations : List String
  pub include_schemas : List String
  pub exclude_relations : List String
  pub exclude_schemas : List String

bool_beq : Bool → Bool → Bool
bool_beq true b = b
bool_beq false b = not b

same_sets : List String → List String → Bool
unfolding equals new_include_set
same_sets xs ys = equals (new_include_set xs) (new_include_set ys)

-- `base_name` is the second result of `path.Split`, the name of the plugin's binary.
unfoldable pub matches_incremental_flags :
    (String → String) → IncrementalFlags → IncrementalFlags → Bool
unfolding bool_beq same_sets
matches_incremental_flags base_name backup current =
    backup.backup_dir == current.backup_dir
    && (backup.database_name == current.database_name
        && (bool_beq backup.leaf_partition_data current.leaf_partition_data
            && (base_name backup.plugin == current.plugin
                && (bool_beq backup.single_data_file current.single_data_file
                    && (bool_beq backup.compressed current.compressed
                        && (same_sets backup.include_relations current.include_relations
                            && (same_sets backup.include_schemas current.include_schemas
                                && (same_sets backup.exclude_relations current.exclude_relations
                                    && (same_sets backup.exclude_schemas
                                        current.exclude_schemas)))))))))

bool_beq_iff : (a b : Bool) → (bool_beq a b ≡ true) ↔ (a ≡ b)
unfolding bool_beq
bool_beq_iff a b = ground arith

abbrev pub SameItems : List String → List String → Type 0
SameItems xs ys = (s : String) → contains s xs ≡ contains s ys

same_sets_iff : (xs ys : List String) → (same_sets xs ys ≡ true) ↔ SameItems xs ys
unfolding same_sets
same_sets_iff xs ys = equals_iff xs ys

both_iff {ℓ κ} :
    {P : Type ℓ} {Q : Type κ} {a b : Bool}
    → (a ≡ true) ↔ P
    → (b ≡ true) ↔ Q
    → ((a && b) ≡ true) ↔ (P × Q)
both_iff {a} {b} p q =
    (λ h. (p.0 (&&_left a b h), q.0 (&&_right a b h)), λ h. rw (p.1 h.0) (q.1 h.1))

string_iff : (a b : String) → ((a == b) ≡ true) ↔ (a ≡ b)
string_iff a b = string_comparable.beq_iff a b

-- An earlier backup matches exactly when it has the directory, database, kind of partition data,
-- plugin binary, kind of data file and compression of the current one, and each of the four filter
-- lists has the same items, in any order.
pub matches_incremental_flags_iff :
    (base_name : String → String) (backup current : IncrementalFlags)
    → (matches_incremental_flags base_name backup current ≡ true) ↔ (
        (backup.backup_dir ≡ current.backup_dir)
        × ((backup.database_name ≡ current.database_name)
            × ((backup.leaf_partition_data ≡ current.leaf_partition_data)
                × ((base_name backup.plugin ≡ current.plugin)
                    × ((backup.single_data_file ≡ current.single_data_file)
                        × ((backup.compressed ≡ current.compressed)
                            × (SameItems backup.include_relations current.include_relations
                                × (SameItems backup.include_schemas current.include_schemas
                                    × (SameItems backup.exclude_relations current.exclude_relations
                                        × SameItems backup.exclude_schemas
                                            current.exclude_schemas)))))))))
unfolding matches_incremental_flags
matches_incremental_flags_iff base_name backup current =
    both_iff (string_iff backup.backup_dir current.backup_dir) (
      both_iff (string_iff backup.database_name current.database_name) (
        both_iff (bool_beq_iff backup.leaf_partition_data current.leaf_partition_data) (
          both_iff (string_iff (base_name backup.plugin) current.plugin) (
            both_iff (bool_beq_iff backup.single_data_file current.single_data_file) (
              both_iff (bool_beq_iff backup.compressed current.compressed) (
                both_iff (same_sets_iff backup.include_relations current.include_relations) (
                  both_iff (same_sets_iff backup.include_schemas current.include_schemas) (
                    both_iff (same_sets_iff backup.exclude_relations current.exclude_relations)
                      (same_sets_iff backup.exclude_schemas current.exclude_schemas)))))))))
