-- ===== src/Backup/Acl.antt =====
-- backup/predata_acl.go: the ACL of an object and how it is read from an aclitem text.
pub mod Scan
use gpbackup.Base.{
  ℕ, zero, suc, ◌+◌, ◌-◌, ◌*◌, ◌/◌, ◌%◌, ◌≤◌, ◌<◌, String, ◌<>◌, len, slice, ◌≡◌, refl, sym, ap,
  subst, ◌∙◌, ◌≢◌, ◌↔◌, ◌⊎◌, inl, inr, Bool, true, false, not, ◌&&◌, ◌||◌, Option, none, some, List,
  [], ◌∷◌, ◌++◌, map, arith, ltb, leb, nat_beq, if◌then◌else◌, nat_beq_iff, ltb→lt, lt→ltb, leb→le,
  Bool-cases, Option-cases, &&_left, &&_right, Comparable, ◌==◌, nat_comparable, string_comparable,
  ==_refl, ==_sound, ==_sym, length, is_empty, get_elem?, drop, filter, All, length-append,
  filter-append, All-append, All-map,
}
use gpbackup.Base.Maps.{GoMap, keys, lookup, put, lookup-put, lookup-none}
use Prim.Native.Char.{Char}
use gpbackup.Utils.Text.{is_code}

-- The struct ACL has two flags for each of these, which are the functions `granted` and
-- `with_grant` below: the field SelectWithGrant is `with_grant select`.
pub data Privilege : Type 0 where
  select insert update delete truncate references trigger usage execute create temporary connect :
      Privilege

abbrev pub privilege_code : Privilege → ℕ
privilege_code select = 0
privilege_code insert = 1
privilege_code update = 2
privilege_code delete = 3
privilege_code truncate = 4
privilege_code references = 5
privilege_code trigger = 6
privilege_code usage = 7
privilege_code execute = 8
privilege_code create = 9
privilege_code temporary = 10
privilege_code connect = 11

abbrev privilege_at : ℕ → Privilege
privilege_at n =
    if nat_beq n 0
    then select
    else if nat_beq n 1
    then insert
    else if nat_beq n 2
    then update
    else if nat_beq n 3
    then delete
    else if nat_beq n 4
    then truncate
    else if nat_beq n 5
    then references
    else if nat_beq n 6
    then trigger
    else if nat_beq n 7
    then usage
    else if nat_beq n 8
    then execute
    else if nat_beq n 9
    then create
    else if nat_beq n 10
    then temporary
    else connect

privilege_at-code : (p : Privilege) → privilege_at (privilege_code p) ≡ p
privilege_at-code select = refl
privilege_at-code insert = refl
privilege_at-code update = refl
privilege_at-code delete = refl
privilege_at-code truncate = refl
privilege_at-code references = refl
privilege_at-code trigger = refl
privilege_at-code usage = refl
privilege_at-code execute = refl
privilege_at-code create = refl
privilege_at-code temporary = refl
privilege_at-code connect = refl

unfoldable pub privilege_beq : Privilege → Privilege → Bool
privilege_beq p q = nat_beq (privilege_code p) (privilege_code q)

pub privilege_beq_iff : (p q : Privilege) → (privilege_beq p q ≡ true) ↔ (p ≡ q)
unfolding privilege_beq
privilege_beq_iff p q = (
  λ h.
      sym (privilege_at-code p)
      ∙ ap privilege_at ((nat_beq_iff (privilege_code p) (privilege_code q)).0 h)
      ∙ privilege_at-code q,
  λ e. (nat_beq_iff (privilege_code p) (privilege_code q)).1 (ap privilege_code e),
)

instance abbrev pub privilege_comparable : Comparable Privilege
privilege_comparable = record { beq = privilege_beq; beq_iff = privilege_beq_iff }

pub record Acl : Type 0 where
  pub grantee : String
  pub granted : Privilege → Bool
  pub with_grant : Privilege → Bool

abbrev pub no_privileges : Acl
no_privileges = record { grantee = ""; granted = λ p. false; with_grant = λ p. false }

-- The assignment `acl.Select = value`.
abbrev pub set_flag : Privilege → Bool → (Privilege → Bool) → Privilege → Bool
set_flag p value flags q = if p == q then value else flags q

-- The cases of both switches.
unfoldable pub privilege_of : Char → Option Privilege
privilege_of c =
    if is_code c b'a'
    then some insert
    else if is_code c b'r'
    then some select
    else if is_code c b'w'
    then some update
    else if is_code c b'd'
    then some delete
    else if is_code c b'D'
    then some truncate
    else if is_code c b'x'
    then some references
    else if is_code c b't'
    then some trigger
    else if is_code c b'X'
    then some execute
    else if is_code c b'U'
    then some usage
    else if is_code c b'C'
    then some create
    else if is_code c b'T'
    then some temporary
    else if is_code c b'c'
    then some connect
    else none

abbrev grant_option : Option Privilege → Acl → Acl
grant_option none acl = acl
grant_option (some p) acl = record acl {
  granted = set_flag p false acl.granted;
  with_grant = set_flag p true acl.with_grant;
}

abbrev grant : Option Privilege → Acl → Acl
grant none acl = acl
grant (some p) acl = record acl { granted = set_flag p true acl.granted }

-- `last` is what `lastChar` selects in the inner switch.
unfoldable pub scan_char : Option Privilege → Char → Acl → Acl
unfolding privilege_of
scan_char last c acl = if is_code c b'*' then grant_option last acl else grant (privilege_of c) acl

-- The loop over `permStr`.
unfoldable pub scan_permissions : Option Privilege → String → Acl → Acl
unfolding scan_char privilege_of
scan_permissions last String.[] acl = acl
scan_permissions last (String.◌∷◌ c perms) acl =
    scan_permissions (privilege_of c) perms (scan_char last c acl)

-- `find` is `ACLRegex.FindStringSubmatch`, the groups of a match or none.
unfoldable pub parse_acl :
    (String → Option (String × String × String)) → GoMap String String → String → Option Acl
unfolding scan_permissions
parse_acl find quoted_role_names acl_str = elim (find acl_str) [
  | none ↦ none
  | some (grantee, perm_str, grantor) ↦
      let acl = scan_permissions none perm_str no_privileges in
      some (record acl {
        grantee = elim (lookup grantee quoted_role_names) [
          | some quoted_role_name ↦ quoted_role_name
          | none ↦ grantee
        ];
      })
]

unfoldable pub get_column_acl :
    (String → Option (String × String × String)) → GoMap String String → List String → List Acl
unfolding parse_acl
get_column_acl find quoted_role_names [] = []
get_column_acl find quoted_role_names (privilege ∷ privileges) =
    let rest = get_column_acl find quoted_role_names privileges in
    elim (parse_acl find quoted_role_names privilege) [ none ↦ rest | some acl ↦ acl ∷ rest ]
