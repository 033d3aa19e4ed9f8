-- ===== src/Backup/Grants/Coverage.antt =====
-- backup/predata_acl.go: the GRANT statements give exactly the privileges of the ACL.
use gpbackup.Base.{String, ◌≡◌, Bool, true, List, [], ◌∷◌, nat_comparable, string_comparable}
use gpbackup.Base.Counting.{contains}
use gpbackup.Base.Maps.{keys}
use gpbackup.Backup.Acl.{Privilege, execute, privilege_comparable}
use gpbackup.Backup.Grants.Documented.{types_with}
use gpbackup.Backup.Grants.{GrantList, all_of, listed}

-- What the server grants for ALL on an object type, or for a list.
abbrev pub grants : String → GrantList → Privilege → Bool
grants object_type all_of p = contains object_type (types_with p)
grants object_type (listed ps) p = contains p (keys ps)

abbrev Alone : List Privilege → Type 0
Alone ps = contains execute ps ≡ true → ps ≡ execute ∷ []
