-- ===== src/Backup/Objects/Printing.antt =====
-- backup/predata_acl.go: the statements behind the definition of an object, in their order.
use gpbackup.Base.{
  ℕ, String, Bool, ◌&&◌, none, List, [], ◌∷◌, ◌++◌, if◌then◌else◌, ◌==◌, nat_comparable,
  string_comparable,
}
use gpbackup.Utils.Io.{FileWithByteCount}
use gpbackup.Toc.{Section, MetadataEntry, Toc}
use gpbackup.Backup.Metadata.{print_statements}
use gpbackup.Backup.Grants.{
  ObjectMetadata, get_comment_statement, get_owner_statement, get_privileges_statements,
  get_security_label_statement,
}

-- The version of the server, and whether the object is a procedure among the functions.
pub record Context : Type 0 where
  pub before6 : Bool
  pub at_least7 : Bool
  pub is_procedure : Bool

abbrev trimmed : (String → String) → String → List String
trimmed trim_space statement = if statement == "" then [] else trim_space statement ∷ []

-- `trim_space` is `strings.TrimSpace`, `fqn` is `obj.FQN()` and `entry_type` the object type of
-- its entry.
unfoldable pub object_statements :
    (String → String) → Context → ObjectMetadata → String → String → String → List String
unfolding get_comment_statement get_owner_statement get_privileges_statements
    get_security_label_statement
object_statements trim_space context metadata fqn entry_type owning_table =
    let object_type = if entry_type == "DATABASE METADATA" then "DATABASE" else entry_type in
    let owner_type =
      if context.at_least7 && context.is_procedure then "PROCEDURE" else object_type in
    trimmed trim_space (get_comment_statement metadata fqn object_type owning_table)
    ++ trimmed trim_space (get_owner_statement context.before6 metadata fqn owner_type)
    ++ trimmed trim_space (get_privileges_statements metadata fqn object_type none)
    ++ trimmed trim_space (get_security_label_statement metadata fqn object_type)

unfoldable pub print_object_metadata :
    (String → String)
    → Context
    → FileWithByteCount
    → Toc
    → ObjectMetadata
    → String
    → Section × MetadataEntry
    → String
    → List ℕ
    → FileWithByteCount × Toc
unfolding object_statements print_statements
print_object_metadata trim_space context file toc metadata fqn obj owning_table tier =
    print_statements file toc obj
      (object_statements trim_space context metadata fqn obj.1.object_type owning_table) tier
