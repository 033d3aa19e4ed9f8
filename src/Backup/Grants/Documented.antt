-- ===== src/Backup/Grants/Documented.antt =====
-- backup/predata_acl.go: the sets of createPrivilegeStrings are those of the documentation of GRANT.
use gpbackup.Base.{
  String, All, ==_sym, not, subst, ◌≡◌, refl, sym, ap, ◌∙◌, inl, inr, Bool, true, false, ◌&&◌, List,
  [], ◌∷◌, arith, Bool-cases, &&_left, &&_right, ◌==◌, nat_comparable, string_comparable, ==_sound,
}
use gpbackup.Base.Counting.{contains}
use gpbackup.Backup.Acl.{
  Privilege, select, insert, update, delete, truncate, references, trigger, usage, execute, create,
  temporary, connect, privilege_beq, privilege_comparable,
}
use gpbackup.Backup.Grants.{all_privileges_of}

-- The object types that have a privilege, as the documentation of GRANT gives them, with the names
-- of the catalog's object types; a relation of any kind is granted on as a table.
abbrev pub types_with : Privilege → List String
types_with select =
    "TABLE" ∷ "VIEW" ∷ "MATERIALIZED VIEW" ∷ "FOREIGN TABLE" ∷ "COLUMN" ∷ "SEQUENCE" ∷ "PROTOCOL"
    ∷ []
types_with insert =
    "TABLE" ∷ "VIEW" ∷ "MATERIALIZED VIEW" ∷ "FOREIGN TABLE" ∷ "COLUMN" ∷ "PROTOCOL" ∷ []
types_with update =
    "TABLE" ∷ "VIEW" ∷ "MATERIALIZED VIEW" ∷ "FOREIGN TABLE" ∷ "COLUMN" ∷ "SEQUENCE" ∷ []
types_with delete = "TABLE" ∷ "VIEW" ∷ "MATERIALIZED VIEW" ∷ "FOREIGN TABLE" ∷ []
types_with truncate = "TABLE" ∷ "VIEW" ∷ "MATERIALIZED VIEW" ∷ "FOREIGN TABLE" ∷ []
types_with references = "TABLE" ∷ "VIEW" ∷ "MATERIALIZED VIEW" ∷ "FOREIGN TABLE" ∷ "COLUMN" ∷ []
types_with trigger = "TABLE" ∷ "VIEW" ∷ "MATERIALIZED VIEW" ∷ "FOREIGN TABLE" ∷ []
types_with usage =
    "SCHEMA" ∷ "SEQUENCE" ∷ "LANGUAGE" ∷ "TYPE" ∷ "FOREIGN DATA WRAPPER" ∷ "FOREIGN SERVER" ∷ []
types_with execute = "FUNCTION" ∷ "AGGREGATE" ∷ []
types_with create = "DATABASE" ∷ "SCHEMA" ∷ "TABLESPACE" ∷ []
types_with temporary = "DATABASE" ∷ []
types_with connect = "DATABASE" ∷ []

every_privilege : List Privilege
every_privilege =
    select ∷ insert ∷ update ∷ delete ∷ truncate ∷ references ∷ trigger ∷ usage ∷ execute ∷ create
    ∷ temporary ∷ connect ∷ []

every_privilege-all : (p : Privilege) → contains p every_privilege ≡ true
unfolding every_privilege privilege_beq
every_privilege-all select = refl
every_privilege-all insert = refl
every_privilege-all update = refl
every_privilege-all delete = refl
every_privilege-all truncate = refl
every_privilege-all references = refl
every_privilege-all trigger = refl
every_privilege-all usage = refl
every_privilege-all execute = refl
every_privilege-all create = refl
every_privilege-all temporary = refl
every_privilege-all connect = refl

same : Bool → Bool → Bool
same true b = b
same false b = not b

same_sound : (a b : Bool) → same a b ≡ true → a ≡ b
unfolding same
same_sound true b h = sym h
same_sound false b h = ground (arith, h)

-- The code's set of an object type has exactly the privileges of the type.
agrees : String → List Privilege → Bool
unfolding same
agrees t [] = true
agrees t (p ∷ ps) =
    same (contains t (types_with p)) (contains p (all_privileges_of t)) && agrees t ps

agrees-contains :
    (t : String) (ps : List Privilege) (p : Privilege)
    → agrees t ps ≡ true
    → contains p ps ≡ true
    → contains t (types_with p) ≡ contains p (all_privileges_of t)
unfolding agrees
agrees-contains t [] p h c = absurd (ground (arith, c))
agrees-contains t (q ∷ ps) p h c = elim (Bool-cases (q == p)) [
  | inl e ↦
      subst (λ r. contains t (types_with r) ≡ contains r (all_privileges_of t)) (==_sound q p e)
        (same_sound (contains t (types_with q)) (contains q (all_privileges_of t)) (&&_left _ _ h))
  | inr e ↦ agrees-contains t ps p (&&_right _ _ h) (rw e at c)
]

-- The object types that the code has a case for, but for foreign tables.
type_names : List String
type_names =
    "COLUMN" ∷ "DATABASE" ∷ "FOREIGN DATA WRAPPER" ∷ "FOREIGN SERVER" ∷ "FUNCTION" ∷ "LANGUAGE"
    ∷ "PROTOCOL" ∷ "SCHEMA" ∷ "SEQUENCE" ∷ "TABLE" ∷ "VIEW" ∷ "MATERIALIZED VIEW" ∷ "TABLESPACE"
    ∷ "TYPE" ∷ "AGGREGATE" ∷ []

known-agrees :
    (names : List String) (t : String)
    → All (λ name. agrees name every_privilege ≡ true) names
    → contains t names ≡ true
    → agrees t every_privilege ≡ true
known-agrees [] t all h = absurd (ground (arith, h))
known-agrees (name ∷ names) t all h = elim (Bool-cases (name == t)) [
  | inl e ↦ subst (λ z. agrees z every_privilege ≡ true) (==_sound name t e) all.0
  | inr e ↦ known-agrees names t all.1 (rw e at h)
]

type_names-agree : All (λ name. agrees name every_privilege ≡ true) type_names
unfolding type_names agrees every_privilege all_privileges_of privilege_beq
type_names-agree = (
  refl,
  (
    refl,
    (
      refl,
      (
        refl,
        (refl, (refl, (refl, (refl, (refl, (refl, (refl, (refl, (refl, (refl, (refl, tt))))))))))),
      ),
    ),
  ),
)

-- A type that is not among some names is none of them, nor among fewer.
not_among :
    (names : List String) (t name : String)
    → contains t names ≡ false
    → contains name names ≡ true
    → (t == name) ≡ false
not_among names t name absent present = elim (Bool-cases (t == name)) [
  | inr e ↦ e
  | inl e ↦ absurd (clash (subst (λ z. contains z names ≡ false) (==_sound t name e) absent))
]
  where
    clash : contains name names ≡ false → ⊥
    clash h = ground (arith, h, present)

fewer-absent :
    (names fewer : List String) (t : String)
    → All (λ name. contains name names ≡ true) fewer
    → contains t names ≡ false
    → contains t fewer ≡ false
fewer-absent names [] t all absent = refl
fewer-absent names (name ∷ fewer) t all absent =
    rw (==_sym name t ∙ not_among names t name absent all.0)
      (fewer-absent names fewer t all.1 absent)

abbrev Listed : List String → Type 0
Listed names = All (λ name. contains name ("FOREIGN TABLE" ∷ type_names) ≡ true) names

types_with-Listed : (p : Privilege) → Listed (types_with p)
unfolding type_names
types_with-Listed select = (refl, (refl, (refl, (refl, (refl, (refl, (refl, tt)))))))
types_with-Listed insert = (refl, (refl, (refl, (refl, (refl, (refl, tt))))))
types_with-Listed update = (refl, (refl, (refl, (refl, (refl, (refl, tt))))))
types_with-Listed delete = (refl, (refl, (refl, (refl, tt))))
types_with-Listed truncate = (refl, (refl, (refl, (refl, tt))))
types_with-Listed references = (refl, (refl, (refl, (refl, (refl, tt)))))
types_with-Listed trigger = (refl, (refl, (refl, (refl, tt))))
types_with-Listed usage = (refl, (refl, (refl, (refl, (refl, (refl, tt))))))
types_with-Listed execute = (refl, (refl, tt))
types_with-Listed create = (refl, (refl, (refl, tt)))
types_with-Listed temporary = (refl, tt)
types_with-Listed connect = (refl, tt)

unknown_type :
    (t : String) → contains t ("FOREIGN TABLE" ∷ type_names) ≡ false → all_privileges_of t ≡ []
unfolding all_privileges_of type_names
unknown_type t absent =
    let off : (name : String)
        → contains name ("FOREIGN TABLE" ∷ type_names) ≡ true
        → (t == name) ≡ false =
      λ name. not_among ("FOREIGN TABLE" ∷ type_names) t name absent in
    rw
      (
        off "COLUMN" refl,
        off "DATABASE" refl,
        off "FOREIGN DATA WRAPPER" refl,
        off "FOREIGN SERVER" refl,
        off "FOREIGN TABLE" refl,
        off "FUNCTION" refl,
        off "LANGUAGE" refl,
        off "PROTOCOL" refl,
        off "SCHEMA" refl,
        off "SEQUENCE" refl,
        off "TABLE" refl,
        off "VIEW" refl,
        off "MATERIALIZED VIEW" refl,
        off "TABLESPACE" refl,
        off "TYPE" refl,
        off "AGGREGATE" refl,
      )
      refl

pub types_with-all_privileges_of :
    (t : String) (p : Privilege)
    → (t == "FOREIGN TABLE") ≡ false
    → contains t (types_with p) ≡ contains p (all_privileges_of t)
types_with-all_privileges_of t p not_foreign = elim (Bool-cases (contains t type_names)) [
  | inl known ↦
      agrees-contains t every_privilege p (known-agrees type_names t type_names-agree known)
        (every_privilege-all p)
  | inr unknown ↦
      let absent : contains t ("FOREIGN TABLE" ∷ type_names) ≡ false =
        rw (==_sym "FOREIGN TABLE" t ∙ not_foreign) unknown in
      fewer-absent ("FOREIGN TABLE" ∷ type_names) (types_with p) t (types_with-Listed p) absent
      ∙ ap (contains p) (sym (unknown_type t absent))
]
