-- ===== src/Backup/Grants.antt =====
-- backup/predata_acl.go: the statements that restore an object's owner, comment, label and grants.
pub mod Coverage
pub mod Documented
use gpbackup.Base.{
  ℕ, zero, suc, ◌+◌, ◌-◌, ◌*◌, ◌/◌, ◌%◌, ◌≤◌, ◌<◌, String, ◌<>◌, len, slice, ◌≡◌, refl, sym, ap,
  subst, ◌∙◌, ◌≢◌, ◌↔◌, ◌⊎◌, inl, inr, Bool, true, false, not, ◌&&◌, ◌||◌, Option, none, some, List,
  [], ◌∷◌, ◌++◌, map, arith, ltb, leb, nat_beq, if◌then◌else◌, nat_beq_iff, ltb→lt, lt→ltb, leb→le,
  Bool-cases, Option-cases, &&_left, &&_right, Comparable, ◌==◌, nat_comparable, string_comparable,
  ==_refl, ==_sound, ==_sym, length, is_empty, get_elem?, drop, filter, All, length-append,
  filter-append, All-append, All-map,
}
use gpbackup.Utils.Text.{join, escape_single_quotes}
use gpbackup.Backup.Acl.{
  Privilege, select, insert, update, delete, truncate, references, trigger, usage, execute, create,
  temporary, connect, Acl,
}

pub record ObjectMetadata : Type 0 where
  pub privileges : List Acl
  pub object_type : String
  pub owner : String
  pub comment : String
  pub security_label_provider : String
  pub security_label : String

-- The flags that the switch of createPrivilegeStrings joins for an object type.
unfoldable pub all_privileges_of : String → List Privilege
all_privileges_of object_type =
    if object_type == "COLUMN"
    then select ∷ insert ∷ update ∷ references ∷ []
    else if object_type == "DATABASE"
    then create ∷ temporary ∷ connect ∷ []
    else if object_type == "FOREIGN DATA WRAPPER"
    then usage ∷ []
    else if object_type == "FOREIGN SERVER"
    then usage ∷ []
    else if object_type == "FOREIGN TABLE"
    then select ∷ insert ∷ update ∷ delete ∷ references ∷ trigger ∷ []
    else if object_type == "FUNCTION"
    then execute ∷ []
    else if object_type == "LANGUAGE"
    then usage ∷ []
    else if object_type == "PROTOCOL"
    then select ∷ insert ∷ []
    else if object_type == "SCHEMA"
    then usage ∷ create ∷ []
    else if object_type == "SEQUENCE"
    then select ∷ update ∷ usage ∷ []
    else if object_type == "TABLE" || object_type == "VIEW" || object_type == "MATERIALIZED VIEW"
    then select ∷ insert ∷ update ∷ delete ∷ truncate ∷ references ∷ trigger ∷ []
    else if object_type == "TABLESPACE"
    then create ∷ []
    else if object_type == "TYPE"
    then usage ∷ []
    else if object_type == "AGGREGATE"
    then execute ∷ []
    else []

unfoldable pub all_set : List Privilege → (Privilege → Bool) → Bool
all_set [] flags = true
all_set (p ∷ ps) flags = flags p && all_set ps flags

-- `hasAllPrivileges`, which stays false for an object type without a case.
unfoldable pub has_all : String → (Privilege → Bool) → Bool
unfolding all_privileges_of all_set
has_all object_type flags =
    let all = all_privileges_of object_type in not (is_empty all) && all_set all flags

-- `privList`: the flags that are tested one by one, in this order, with what each appends.
abbrev pub individual_privileges : List (Privilege × String)
individual_privileges =
    (select, "SELECT")
    ∷ (insert, "INSERT")
    ∷ (update, "UPDATE")
    ∷ (delete, "DELETE")
    ∷ (truncate, "TRUNCATE")
    ∷ (references, "REFERENCES")
    ∷ (trigger, "TRIGGER")
    ∷ (usage, "USAGE")
    ∷ (create, "CREATE")
    ∷ (temporary, "TEMPORARY")
    ∷ (connect, "CONNECT")
    ∷ []

unfoldable pub priv_list :
    List (Privilege × String) → (Privilege → Bool) → List (Privilege × String)
priv_list [] flags = []
priv_list ((p, name) ∷ ps) flags =
    let rest = priv_list ps flags in if flags p then (p, name) ∷ rest else rest

-- What one of the two strings grants: everything, or the listed privileges.
pub data GrantList : Type 0 where
  all_of : GrantList
  listed : List (Privilege × String) → GrantList

unfoldable pub grant_list : String → (Privilege → Bool) → GrantList
unfolding has_all priv_list
grant_list object_type flags =
    if has_all object_type flags then all_of else listed (priv_list individual_privileges flags)

abbrev pub names : List (Privilege × String) → List String
names [] = []
names ((p, name) ∷ ps) = name ∷ names ps

unfoldable pub priv_str : GrantList → String
unfolding join
priv_str all_of = "ALL"
priv_str (listed ps) = join (names ps) ","

unfoldable pub create_privilege_strings : Acl → String → String × String
unfolding grant_list priv_str
create_privilege_strings acl object_type = (
  priv_str (grant_list object_type acl.granted),
  priv_str (grant_list object_type acl.with_grant),
)

abbrev pub type_str : String → String
type_str object_type =
    if object_type == "VIEW" || object_type == "FOREIGN TABLE" || object_type == "MATERIALIZED VIEW"
    then "TABLE "
    else if object_type == "COLUMN"
    then "TABLE "
    else if object_type == "AGGREGATE"
    then "FUNCTION "
    else object_type <> " "

abbrev pub when_some : String → String → List String
when_some priv statement = if priv == "" then [] else statement ∷ []

-- `on_object` is the text between the privileges and the grantee.
unfoldable pub grant_statements : String → String → List Acl → List String
unfolding create_privilege_strings
grant_statements on_object object_type [] = []
grant_statements on_object object_type (acl ∷ acls) =
    let grantee = if acl.grantee == "" then "PUBLIC" else acl.grantee in
    let (priv, priv_with_grant) = create_privilege_strings acl object_type in
    when_some priv ("GRANT " <> (priv <> (on_object <> (" TO " <> (grantee <> ";")))))
    ++ when_some priv_with_grant (
        "GRANT "
        <> (priv_with_grant <> (on_object <> (" TO " <> (grantee <> " WITH GRANT OPTION;")))))
    ++ grant_statements on_object object_type acls

-- `column_name` is the optional last argument.
unfoldable pub get_privileges_statements : ObjectMetadata → String → String → Option String → String
unfolding grant_statements join
get_privileges_statements obj object_name object_type column_name =
    let column_str : String = elim column_name [ none ↦ "" | some name ↦ "(" <> (name <> ") ") ] in
    let on_object = " " <> (column_str <> ("ON " <> (type_str object_type <> object_name))) in
    let statements =
      if is_empty obj.privileges
      then []
      else (("REVOKE ALL" <> (on_object <> " FROM PUBLIC;")) ∷ [])
        ++ when_some obj.owner ("REVOKE ALL" <> (on_object <> (" FROM " <> (obj.owner <> ";"))))
        ++ grant_statements on_object object_type obj.privileges in
    if is_empty statements then "" else "\n\n" <> join statements "\n"

-- `before6` is `connectionPool.Version.Before("6")`.
unfoldable pub get_owner_statement : Bool → ObjectMetadata → String → String → String
get_owner_statement before6 obj object_name object_type =
    let type =
      if before6 && (object_type == "SEQUENCE" || object_type == "VIEW")
      then "TABLE"
      else if object_type == "FOREIGN SERVER"
      then "SERVER"
      else object_type in
    if obj.owner == ""
    then ""
    else "ALTER " <> (type <> (" " <> (object_name <> (" OWNER TO " <> (obj.owner <> ";")))))

unfoldable pub get_comment_statement : ObjectMetadata → String → String → String → String
unfolding escape_single_quotes
get_comment_statement obj object_name object_type owning_table =
    let table_str = if owning_table == "" then "" else " ON " <> owning_table in
    if obj.comment == ""
    then ""
    else "COMMENT ON "
      <> (object_type
          <> (" "
              <> (object_name
                  <> (table_str <> (" IS '" <> (escape_single_quotes obj.comment <> "';"))))))

unfoldable pub get_security_label_statement : ObjectMetadata → String → String → String
unfolding escape_single_quotes
get_security_label_statement obj object_name object_type =
    if obj.security_label == ""
    then ""
    else "SECURITY LABEL FOR "
      <> (obj.security_label_provider
          <> (" ON "
              <> (object_type
                  <> (" "
                      <> (object_name
                          <> (" IS '" <> (escape_single_quotes obj.security_label <> "';")))))))
