-- ===== src/Tests/OfPrivileges.antt =====
-- The theorems on privileges and on the metadata of objects at concrete inputs.
use gpbackup.Base.{
  ℕ, String, ◌≡◌, refl, Bool, true, false, not, Option, none, some, List, [], ◌∷◌, if◌then◌else◌,
  ◌==◌, nat_comparable, string_comparable,
}
use gpbackup.Base.Maps.{lookup}
use gpbackup.Backup.Objects.{
  UniqueId, unique_id_beq, unique_id_comparable, MetadataQueryStruct, construct_metadata_map,
}
use gpbackup.Backup.Objects.Grouping.{construct_metadata_map_lem}
use gpbackup.Backup.Acl.{
  Privilege, select, insert, usage, Acl, privilege_beq, privilege_comparable, parse_acl,
}
use gpbackup.Backup.Acl.Scan.{parse_acl-print}

abbrev id_of : ℕ → UniqueId
id_of n = record { class_id = 1259; oid = n }

-- Two rows of one table, the second of which is no aclitem.
abbrev row_of : ℕ → Option String → MetadataQueryStruct
row_of n privileges = record {
  unique_id = id_of n;
  object_type = "TABLE";
  owner = "o";
  comment = "";
  privileges = privileges;
  kind = "";
  security_label = "";
  security_label_provider = "";
}

abbrev to_public : String → Option Acl
to_public s =
    if s == "=r/o"
    then some (record { grantee = ""; granted = λ p. p == select; with_grant = λ p. false })
    else none

construct_metadata_map_example :
    lookup (id_of 2) (
      construct_metadata_map to_public
        (λ acls. acls)
        (row_of 1 none ∷ row_of 2 (some "=r/o") ∷ row_of 2 none ∷ row_of 3 none ∷ []))
    ≡ some (record {
      privileges =
          record { grantee = ""; granted = λ p. p == select; with_grant = λ p. false } ∷ [];
      object_type = "TABLE";
      owner = "o";
      comment = "";
      security_label_provider = "";
      security_label = "";
    })
unfolding unique_id_beq
construct_metadata_map_example =
    construct_metadata_map_lem to_public (λ acls. acls) (row_of 1 none ∷ []) (row_of 2 none ∷ [])
      (row_of 3 none ∷ []) (row_of 2 (some "=r/o")) refl (refl, tt) (refl, tt) (refl, tt)

abbrev two_permissions : List (Privilege × Bool)
two_permissions = (insert, false) ∷ (select, true) ∷ []

abbrev split_item : String → Option (String × String × String)
split_item s = if s == "u=ar*/o" then some ("u", "ar*", "o") else none

parse_acl-print_example :
    (acl : Acl) × (parse_acl split_item (("u", "\"u\"") ∷ []) "u=ar*/o" ≡ some acl)
    × (acl.grantee ≡ "\"u\"")
    × ((q : Privilege)
        → acl.granted q ≡ (elim (lookup q two_permissions) [ none ↦ false | some g ↦ not g ]))
    × ((q : Privilege)
        → acl.with_grant q ≡ (elim (lookup q two_permissions) [ none ↦ false | some g ↦ g ]))
unfolding privilege_beq
parse_acl-print_example =
    parse_acl-print split_item (("u", "\"u\"") ∷ []) "u=ar*/o" "u" "o" two_permissions
      (refl, (refl, tt)) refl

abbrev schema_flags : Privilege → Bool
schema_flags p = if p == usage then true else false
