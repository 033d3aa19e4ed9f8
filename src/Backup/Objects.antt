-- ===== src/Backup/Objects.antt =====
-- backup/predata_acl.go: the rows of the ACL queries are grouped into one record per object.
pub mod Grouping
pub mod Printing
use gpbackup.Base.{
  ℕ, zero, suc, ◌+◌, ◌-◌, ◌*◌, ◌/◌, ◌%◌, ◌≤◌, ◌<◌, String, ◌<>◌, len, slice, ◌≡◌, refl, sym, ap,
  subst, ◌∙◌, ◌≢◌, ◌↔◌, ◌⊎◌, inl, inr, Bool, true, false, not, ◌&&◌, ◌||◌, Option, none, some, List,
  [], ◌∷◌, ◌++◌, map, arith, ltb, leb, nat_beq, if◌then◌else◌, nat_beq_iff, ltb→lt, lt→ltb, leb→le,
  Bool-cases, Option-cases, &&_left, &&_right, Comparable, ◌==◌, nat_comparable, string_comparable,
  ==_refl, ==_sound, ==_sym, length, is_empty, get_elem?, drop, filter, All, length-append,
  filter-append, All-append, All-map,
}
use gpbackup.Base.Maps.{GoMap, keys, lookup, put, delete, lookup-put, lookup-none}
use gpbackup.Utils.Text.{join}
use gpbackup.Utils.Io.{FileWithByteCount, must_println}
use gpbackup.Toc.{Section, postdata, MetadataEntry, Toc, add_metadata_entry}
use gpbackup.Backup.Acl.{Acl, parse_acl}
use gpbackup.Backup.Grants.{ObjectMetadata, grant_statements, when_some, create_privilege_strings}

pub record UniqueId : Type 0 where
  pub class_id : ℕ
  pub oid : ℕ

unfoldable pub unique_id_beq : UniqueId → UniqueId → Bool
unique_id_beq a b = a.class_id == b.class_id && a.oid == b.oid

pub unique_id_beq_iff : (a b : UniqueId) → (unique_id_beq a b ≡ true) ↔ (a ≡ b)
unfolding unique_id_beq
unique_id_beq_iff a b = (
  λ h.
      pair_up (==_sound a.class_id b.class_id (&&_left _ _ h))
        (==_sound a.oid b.oid (&&_right _ _ h)),
  λ e.
      ap (λ z. a.class_id == z.class_id && a.oid == z.oid) (sym e)
      ∙ ground (arith, ==_refl a.class_id, ==_refl a.oid),
)
  where
    pair_up : a.class_id ≡ b.class_id → a.oid ≡ b.oid → a ≡ b
    pair_up p q = λ i. record { class_id = p i; oid = q i }

instance abbrev pub unique_id_comparable : Comparable UniqueId
unique_id_comparable = record { beq = unique_id_beq; beq_iff = unique_id_beq_iff }

-- A row of the query: `privileges` is the text of a valid NullString.
pub record MetadataQueryStruct : Type 0 where
  pub unique_id : UniqueId
  pub object_type : String
  pub owner : String
  pub comment : String
  pub privileges : Option String
  pub kind : String
  pub security_label : String
  pub security_label_provider : String

abbrev pub privileges_str : String → Option String → String
privileges_str kind privileges =
    if kind == "Empty" then "GRANTEE=/GRANTOR" else elim privileges [ none ↦ "" | some text ↦ text ]

abbrev pub append_acl : Option Acl → List Acl → List Acl
append_acl none acls = acls
append_acl (some acl) acls = acls ++ acl ∷ []

abbrev pub zero_id : UniqueId
zero_id = record { class_id = 0; oid = 0 }

abbrev pub no_metadata : ObjectMetadata
no_metadata = record {
  privileges = [];
  object_type = "";
  owner = "";
  comment = "";
  security_label_provider = "";
  security_label = "";
}

-- `parse` is `ParseACL`, with the expression and the quoted role names; `sort_acls` is `sortACLs`,
-- which is a call of `sort.Slice`.
module _ (parse : String → Option Acl) (sort_acls : List Acl → List Acl) where
  abbrev pub start_object : MetadataQueryStruct → ObjectMetadata
  start_object result = record {
    privileges = [];
    object_type = result.object_type;
    owner = result.owner;
    comment = result.comment;
    security_label_provider = result.security_label_provider;
    security_label = result.security_label;
  }

  abbrev pub add_privileges : MetadataQueryStruct → ObjectMetadata → ObjectMetadata
  add_privileges result metadata = record metadata {
    privileges =
        append_acl (parse (privileges_str result.kind result.privileges)) metadata.privileges;
  }

  abbrev pub finish_object : ObjectMetadata → ObjectMetadata
  finish_object metadata = record metadata { privileges = sort_acls metadata.privileges }

  -- The loop over the rows, with the object being collected, and the store after it.
  unfoldable pub collect_metadata :
      List MetadataQueryStruct
      → UniqueId
      → ObjectMetadata
      → GoMap UniqueId ObjectMetadata
      → GoMap UniqueId ObjectMetadata
  unfolding unique_id_beq
  collect_metadata [] current metadata metadata_map =
      put current (finish_object metadata) metadata_map
  collect_metadata (result ∷ results) current metadata metadata_map =
      let stored =
        if current == zero_id
        then metadata_map
        else put current (finish_object metadata) metadata_map in
      let same = collect_metadata results current (add_privileges result metadata) metadata_map in
      let next =
        collect_metadata results result.unique_id (add_privileges result (start_object result))
          stored in
      if result.unique_id == current then same else next

  unfoldable pub construct_metadata_map : List MetadataQueryStruct → GoMap UniqueId ObjectMetadata
  unfolding collect_metadata
  construct_metadata_map results =
      if is_empty results then [] else collect_metadata results zero_id no_metadata []

pub record DefaultPrivilegesQueryStruct : Type 0 where
  pub oid : ℕ
  pub owner : String
  pub schema : String
  pub privileges : Option String
  pub kind : String
  pub object_type : String

pub record DefaultPrivileges : Type 0 where
  pub owner : String
  pub schema : String
  pub privileges : List Acl
  pub object_type : String

abbrev pub default_privileges_entry : DefaultPrivileges → Section × MetadataEntry
default_privileges_entry dp = (
  postdata,
  record {
    schema = dp.schema;
    name = "";
    object_type = "DEFAULT PRIVILEGES";
    reference_object = "";
    start_byte = 0;
    end_byte = 0;
    tier = [];
  },
)

module _ (parse : String → Option Acl) (sort_acls : List Acl → List Acl) where
  abbrev pub finish_default : DefaultPrivileges → DefaultPrivileges
  finish_default priv = record priv { privileges = sort_acls priv.privileges }

  abbrev pub add_default : DefaultPrivilegesQueryStruct → DefaultPrivileges → DefaultPrivileges
  add_default result priv = record priv {
    privileges = append_acl (parse (privileges_str result.kind result.privileges)) priv.privileges;
  }

  unfoldable pub collect_defaults :
      List DefaultPrivilegesQueryStruct
      → ℕ
      → DefaultPrivileges
      → List DefaultPrivileges
      → List DefaultPrivileges
  collect_defaults [] current priv done = done ++ finish_default priv ∷ []
  collect_defaults (result ∷ results) current priv done =
      let stored = if current == 0 then done else done ++ finish_default priv ∷ [] in
      let same = collect_defaults results current (add_default result priv) done in
      let fresh : DefaultPrivileges = record {
        owner = result.owner;
        schema = result.schema;
        privileges = [];
        object_type = result.object_type;
      } in
      let next = collect_defaults results result.oid (add_default result fresh) stored in
      if result.oid == current then same else next

  unfoldable pub construct_default_privileges :
      List DefaultPrivilegesQueryStruct → List DefaultPrivileges
  unfolding collect_defaults
  construct_default_privileges results =
      if is_empty results
      then []
      else collect_defaults results 0
          (record { owner = ""; schema = ""; privileges = []; object_type = "" }) []

abbrev default_object_type : String → String
default_object_type code =
    if code == "r"
    then "TABLE"
    else if code == "S"
    then "SEQUENCE"
    else if code == "f"
    then "FUNCTION"
    else if code == "T"
    then "TYPE"
    else ""

unfoldable pub default_grants : String → String → List Acl → List String
unfolding create_privilege_strings
default_grants alter_prefix object_type [] = []
default_grants alter_prefix object_type (acl ∷ acls) =
    let grantee = if acl.grantee == "" then "PUBLIC" else acl.grantee in
    let (priv, priv_with_grant) = create_privilege_strings acl object_type in
    let to_grantee = " ON " <> (object_type <> ("S TO " <> grantee)) in
    when_some priv (alter_prefix <> (" GRANT " <> (priv <> (to_grantee <> ";"))))
    ++ when_some priv_with_grant
        (alter_prefix <> (" GRANT " <> (priv_with_grant <> (to_grantee <> " WITH GRANT OPTION;"))))
    ++ default_grants alter_prefix object_type acls

unfoldable pub default_privileges_statements : DefaultPrivileges → List String
unfolding default_grants
default_privileges_statements priv =
    let role_str = if priv.owner == "" then "" else " FOR ROLE " <> priv.owner in
    let schema_str = if priv.schema == "" then "" else " IN SCHEMA " <> priv.schema in
    let object_type = default_object_type priv.object_type in
    let alter_prefix = "ALTER DEFAULT PRIVILEGES" <> (role_str <> schema_str) in
    let revoke = alter_prefix <> (" REVOKE ALL ON " <> (object_type <> "S FROM ")) in
    ((revoke <> "PUBLIC;") ∷ [])
    ++ when_some priv.owner (revoke <> (priv.owner <> ";"))
    ++ default_grants alter_prefix object_type priv.privileges

unfoldable pub print_default_privileges_statements :
    FileWithByteCount → Toc → List DefaultPrivileges → FileWithByteCount × Toc
unfolding default_privileges_statements join must_println add_metadata_entry
print_default_privileges_statements file toc [] = (file, toc)
print_default_privileges_statements file toc (priv ∷ privs) =
    let after = must_println file ("\n\n" <> join (default_privileges_statements priv) "\n") in
    let (section, entry) = default_privileges_entry priv in
    print_default_privileges_statements after
      (add_metadata_entry toc section entry file.byte_count after.byte_count (0 ∷ 0 ∷ [])) privs
