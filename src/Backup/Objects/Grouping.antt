-- ===== src/Backup/Objects/Grouping.antt =====
-- backup/predata_acl.go: what the metadata map holds for an object with several rows.
use gpbackup.Base.{
  String, ◌≡◌, refl, sym, ap, ◌∙◌, inl, inr, true, false, Option, none, some, List, [], ◌∷◌, ◌++◌,
  if◌then◌else◌, Bool-cases, ◌==◌, nat_comparable, string_comparable, ==_refl, ==_sym, All,
}
use gpbackup.Base.Maps.{GoMap, lookup, put, lookup-put}
use mathlib.Core.List.{append_assoc, append-nil}
use gpbackup.Backup.Acl.{Acl}
use gpbackup.Backup.Grants.{ObjectMetadata}
use gpbackup.Backup.Objects.{
  UniqueId, unique_id_comparable, MetadataQueryStruct, privileges_str, append_acl, zero_id,
  no_metadata, start_object, add_privileges, finish_object, collect_metadata,
  construct_metadata_map,
}

-- The ACLs of an object's rows in their order; a row whose text is no aclitem gives none.
abbrev pub acls_of : (String → Option Acl) → List MetadataQueryStruct → List Acl
acls_of parse [] = []
acls_of parse (r ∷ rs) =
    append_acl (parse (privileges_str r.kind r.privileges)) [] ++ acls_of parse rs

append_acl_lem :
    (o : Option Acl) (xs ys : List Acl) → append_acl o xs ++ ys ≡ xs ++ (append_acl o [] ++ ys)
append_acl_lem none xs ys = refl
append_acl_lem (some a) xs ys = append_assoc xs (a ∷ []) ys

module _ (parse : String → Option Acl) (sort_acls : List Acl → List Acl) (k : UniqueId) where
  abbrev Other : MetadataQueryStruct → Type 0
  Other r = (r.unique_id == k) ≡ false

  abbrev collect :
      List MetadataQueryStruct
      → UniqueId
      → ObjectMetadata
      → GoMap UniqueId ObjectMetadata
      → GoMap UniqueId ObjectMetadata
  collect = collect_metadata parse sort_acls

  abbrev fold : List MetadataQueryStruct → ObjectMetadata → ObjectMetadata
  fold [] md = md
  fold (r ∷ rs) md = fold rs (add_privileges parse sort_acls r md)

  fold_lem :
      (rs : List MetadataQueryStruct) (md : ObjectMetadata)
      → fold rs md ≡ record md { privileges = md.privileges ++ acls_of parse rs }
  fold_lem [] md = ap (λ z. record md { privileges = z }) (sym (append-nil md.privileges))
  fold_lem (r ∷ rs) md =
      fold_lem rs (add_privileges parse sort_acls r md)
      ∙ ap (λ z. record md { privileges = z })
          (append_acl_lem (parse (privileges_str r.kind r.privileges)) md.privileges
            (acls_of parse rs))

  -- From a step on whose object is another one, `k` keeps its entry.
  kept :
      (after : List MetadataQueryStruct) (cur : UniqueId) (md v : ObjectMetadata)
      (m : GoMap UniqueId ObjectMetadata)
      → All Other after
      → (cur == k) ≡ false
      → lookup k m ≡ some v
      → lookup k (collect after cur md m) ≡ some v
  unfolding collect_metadata
  kept [] cur md v m o c h = lookup-put cur k _ m ∙ rw c h
  kept (r ∷ rs) cur md v m o c h = elim (Bool-cases (r.unique_id == cur)) [
    | inl e ↦ rw e (kept rs cur (add_privileges parse sort_acls r md) v m o.1 c h)
    | inr e ↦ rw e (
        kept rs r.unique_id _ v _ o.1 o.0 (elim (Bool-cases (cur == zero_id)) [
          | inl z ↦ rw z h
          | inr z ↦ rw z (lookup-put cur k _ m ∙ rw c h)
        ]))
  ]

  stored :
      (after : List MetadataQueryStruct) (md : ObjectMetadata) (m : GoMap UniqueId ObjectMetadata)
      → All Other after
      → (k == zero_id) ≡ false
      → lookup k (collect after k md m) ≡ some (finish_object parse sort_acls md)
  unfolding collect_metadata
  stored [] md m o z = lookup-put k k _ m ∙ rw (==_refl k)
  stored (r ∷ rs) md m o z =
      rw (o.0, z) (kept rs r.unique_id _ _ _ o.1 o.0 (lookup-put k k _ m ∙ rw (==_refl k)))

  gathered :
      (group after : List MetadataQueryStruct) (md : ObjectMetadata)
      (m : GoMap UniqueId ObjectMetadata)
      → All (λ r. (r.unique_id == k) ≡ true) group
      → collect (group ++ after) k md m ≡ collect after k (fold group md) m
  unfolding collect_metadata
  gathered [] after md m g = refl
  gathered (r ∷ rs) after md m g =
      rw (g.0) (gathered rs after (add_privileges parse sort_acls r md) m g.1)

  skipped :
      (before rest : List MetadataQueryStruct) (cur : UniqueId) (md : ObjectMetadata)
      (m : GoMap UniqueId ObjectMetadata)
      → All Other before
      → (cur == k) ≡ false
      → (cur' : UniqueId) × (md' : ObjectMetadata) × (m' : GoMap UniqueId ObjectMetadata) × ((cur'
            == k)
          ≡ false)
        × (collect (before ++ rest) cur md m ≡ collect rest cur' md' m')
  unfolding collect_metadata
  skipped [] rest cur md m o c = (cur, md, m, c, refl)
  skipped (r ∷ rs) rest cur md m o c = elim (Bool-cases (r.unique_id == cur)) [
    | inl e ↦ rw e (skipped rs rest cur _ m o.1 c)
    | inr e ↦ rw e (skipped rs rest r.unique_id _ _ o.1 o.0)
  ]

  from_zero :
      (before rest : List MetadataQueryStruct) (r : MetadataQueryStruct)
      → construct_metadata_map parse sort_acls (before ++ r ∷ rest)
        ≡ collect (before ++ r ∷ rest) zero_id no_metadata []
  unfolding construct_metadata_map
  from_zero [] rest r = refl
  from_zero (b ∷ before) rest r = refl

  started :
      (r : MetadataQueryStruct) (rest : List MetadataQueryStruct) (cur : UniqueId)
      (md : ObjectMetadata) (m : GoMap UniqueId ObjectMetadata)
      → r.unique_id ≡ k
      → (cur == k) ≡ false
      → (m' : GoMap UniqueId ObjectMetadata) × (collect (r ∷ rest) cur md m
          ≡ collect rest k (add_privileges parse sort_acls r (start_object parse sort_acls r)) m')
  unfolding collect_metadata
  started r rest cur md m e c = (
    (if cur == zero_id then m else put cur (finish_object parse sort_acls md) m),
    rw (e, ==_sym k cur, c),
  )

-- When the query returns the rows of an object next to each other, the map holds for the object
-- the owner, comment and label of its first row, and the sorted ACLs of all its rows; a row whose
-- text is no aclitem adds none. The object's id is not the zero id, with which the loop starts.
pub construct_metadata_map_lem :
    (parse : String → Option Acl) (sort_acls : List Acl → List Acl)
    (before group after : List MetadataQueryStruct) (r : MetadataQueryStruct)
    → (r.unique_id == zero_id) ≡ false
    → All (λ s. (s.unique_id == r.unique_id) ≡ false) before
    → All (λ s. (s.unique_id == r.unique_id) ≡ true) group
    → All (λ s. (s.unique_id == r.unique_id) ≡ false) after
    → lookup r.unique_id (construct_metadata_map parse sort_acls (before ++ r ∷ (group ++ after)))
      ≡ some (record {
        privileges = sort_acls (acls_of parse (r ∷ group));
        object_type = r.object_type;
        owner = r.owner;
        comment = r.comment;
        security_label_provider = r.security_label_provider;
        security_label = r.security_label;
      })
construct_metadata_map_lem parse sort_acls before group after r z b g a =
    let k = r.unique_id in
    let (cur, md, m, other, at_r) =
      skipped parse sort_acls k before (r ∷ (group ++ after)) zero_id no_metadata [] b
        (==_sym zero_id k ∙ z) in
    let (m', at_group) = started parse sort_acls k r (group ++ after) cur md m refl other in
    let first = add_privileges parse sort_acls r (start_object parse sort_acls r) in
    ap (lookup k) (
      from_zero parse sort_acls k before (group ++ after) r
      ∙ at_r
      ∙ at_group
      ∙ gathered parse sort_acls k group after first m' g)
    ∙ stored parse sort_acls k after (fold parse sort_acls k group first) m' a z
    ∙ ap (λ md. some (finish_object parse sort_acls md)) (fold_lem parse sort_acls k group first)
