-- ===== src/Backup/Acl/Scan.antt =====
-- backup/predata_acl.go: the flags that the permissions of an aclitem set.
use gpbackup.Base.{
  String, ◌≡◌, refl, sym, ap, ◌∙◌, inl, inr, Bool, true, false, not, Option, none, some, List, [],
  ◌∷◌, arith, if◌then◌else◌, Bool-cases, ◌==◌, nat_comparable, string_comparable, ==_sound,
}
use gpbackup.Base.Counting.{contains, IsDistinct}
use gpbackup.Base.Maps.{GoMap, keys, lookup}
use Prim.Native.Char.{Char}
use gpbackup.Utils.Text.{is_code}
use gpbackup.Backup.Acl.{
  Privilege, select, insert, update, delete, truncate, references, trigger, usage, execute, create,
  temporary, connect, Acl, no_privileges, set_flag, privilege_of, privilege_comparable, scan_char,
  scan_permissions, parse_acl,
}

-- The letter that the server prints for a privilege.
abbrev pub letter : Privilege → Char
letter select = "r"
letter insert = "a"
letter update = "w"
letter delete = "d"
letter truncate = "D"
letter references = "x"
letter trigger = "t"
letter usage = "U"
letter execute = "X"
letter create = "C"
letter temporary = "T"
letter connect = "c"

-- The permissions part of an aclitem: each letter, with a star for the grant option.
abbrev pub print_permissions : List (Privilege × Bool) → String
print_permissions [] = String.[]
print_permissions ((p, true) ∷ ps) = String.◌∷◌ (letter p) (String.◌∷◌ "*" (print_permissions ps))
print_permissions ((p, false) ∷ ps) = String.◌∷◌ (letter p) (print_permissions ps)

privilege_of-letter : (p : Privilege) → privilege_of (letter p) ≡ some p
unfolding privilege_of
privilege_of-letter select = refl
privilege_of-letter insert = refl
privilege_of-letter update = refl
privilege_of-letter delete = refl
privilege_of-letter truncate = refl
privilege_of-letter references = refl
privilege_of-letter trigger = refl
privilege_of-letter usage = refl
privilege_of-letter execute = refl
privilege_of-letter create = refl
privilege_of-letter temporary = refl
privilege_of-letter connect = refl

letter_not_star : (p : Privilege) → is_code (letter p) b'*' ≡ false
letter_not_star select = refl
letter_not_star insert = refl
letter_not_star update = refl
letter_not_star delete = refl
letter_not_star truncate = refl
letter_not_star references = refl
letter_not_star trigger = refl
letter_not_star usage = refl
letter_not_star execute = refl
letter_not_star create = refl
letter_not_star temporary = refl
letter_not_star connect = refl

-- The two flags of each privilege that a list of privileges stands for.
abbrev pub flag_of : Bool → List (Privilege × Bool) → (Privilege → Bool) → Privilege → Bool
flag_of grantable [] old q = old q
flag_of grantable ((p, g) ∷ ps) old q =
    let rest = flag_of grantable ps old q in
    if p == q then (if grantable then g else not g) else rest

-- No flag of a listed privilege is set yet.
abbrev Unset : List (Privilege × Bool) → Acl → Type 0
Unset ps acl =
    (q : Privilege)
    → contains q (keys ps) ≡ true
    → (acl.granted q ≡ false) × (acl.with_grant q ≡ false)

scan-letter :
    (last : Option Privilege) (p : Privilege) (perms : String) (acl : Acl)
    → scan_permissions last (String.◌∷◌ (letter p) perms) acl
      ≡ scan_permissions (some p) perms (record acl { granted = set_flag p true acl.granted })
unfolding scan_permissions scan_char
scan-letter last p perms acl = rw (privilege_of-letter p, letter_not_star p)

scan-star :
    (p : Privilege) (perms : String) (acl : Acl)
    → scan_permissions (some p) (String.◌∷◌ "*" perms) acl
      ≡ scan_permissions none perms (record acl {
        granted = set_flag p false acl.granted;
        with_grant = set_flag p true acl.with_grant;
      })
unfolding scan_permissions scan_char privilege_of
scan-star p perms acl = refl

flag_of-absent :
    (b : Bool) (ps : List (Privilege × Bool)) (f : Privilege → Bool) (q : Privilege)
    → contains q (keys ps) ≡ false
    → flag_of b ps f q ≡ f q
flag_of-absent b [] f q h = refl
flag_of-absent b ((p, g) ∷ ps) f q h = ground (arith, flag_of-absent b ps f q)

flag_of-cong :
    (b : Bool) (ps : List (Privilege × Bool)) (f f' : Privilege → Bool) (q : Privilege)
    → f q ≡ f' q
    → flag_of b ps f q ≡ flag_of b ps f' q
flag_of-cong b [] f f' q h = h
flag_of-cong b ((p, g) ∷ ps) f f' q h = rw (flag_of-cong b ps f f' q h)

-- A later privilege's flags are not touched by an earlier one's letter.
other_flag :
    (p q : Privilege) (b : Bool) (f : Privilege → Bool) (ps : List (Privilege × Bool))
    → contains p (keys ps) ≡ false
    → contains q (keys ps) ≡ true
    → set_flag p b f q ≡ f q
other_flag p q b f ps d h = elim (Bool-cases (p == q)) [
  | inl e ↦ absurd (ground (arith, ap (λ z. contains z (keys ps)) (==_sound p q e)))
  | inr e ↦ rw e
]

absent_of :
    (p q : Privilege) (ps : List (Privilege × Bool))
    → contains p (keys ps) ≡ false
    → (p == q) ≡ true
    → contains q (keys ps) ≡ false
absent_of p q ps d e = ap (λ z. contains z (keys ps)) (sym (==_sound p q e)) ∙ d

-- The permissions of distinct privileges set the flag that each asks for, and leave the others.
scan_permissions_lem :
    (ps : List (Privilege × Bool)) (last : Option Privilege) (acl : Acl) (q : Privilege)
    → IsDistinct (keys ps)
    → Unset ps acl
    → ((scan_permissions last (print_permissions ps) acl).granted q
        ≡ flag_of false ps acl.granted q)
      × ((scan_permissions last (print_permissions ps) acl).with_grant q
          ≡ flag_of true ps acl.with_grant q)
scan_permissions_lem [] last acl q d u = unfold scan_permissions in (refl, refl)
scan_permissions_lem ((p, true) ∷ ps) last acl q d u =
    let acl' : Acl = record acl {
      granted = set_flag p false (set_flag p true acl.granted);
      with_grant = set_flag p true acl.with_grant;
    } in
    let (g, w) = scan_permissions_lem ps none acl' q d.1 (λ r h.
      let (ug, uw) = u r (ground (arith, h)) in
      (
        other_flag p r false (set_flag p true acl.granted) ps d.0 h
            ∙ other_flag p r true acl.granted ps d.0 h
            ∙ ug,
        other_flag p r true acl.with_grant ps d.0 h ∙ uw,
      )) in
    rw (scan-letter last p, scan-star p)
      (elim (Bool-cases (p == q)) [
        | inl e ↦ (
          g ∙ flag_of-absent false ps acl'.granted q (absent_of p q ps d.0 e) ∙ rw e,
          w ∙ flag_of-absent true ps acl'.with_grant q (absent_of p q ps d.0 e) ∙ rw e,
        )
        | inr e ↦ (
          g ∙ flag_of-cong false ps acl'.granted acl.granted q (rw e) ∙ rw e,
          w ∙ flag_of-cong true ps acl'.with_grant acl.with_grant q (rw e) ∙ rw e,
        )
      ])
scan_permissions_lem ((p, false) ∷ ps) last acl q d u =
    let acl' : Acl = record acl { granted = set_flag p true acl.granted } in
    let (g, w) = scan_permissions_lem ps (some p) acl' q d.1 (λ r h.
      let (ug, uw) = u r (ground (arith, h)) in
      (other_flag p r true acl.granted ps d.0 h ∙ ug, uw)) in
    rw (scan-letter last p) (elim (Bool-cases (p == q)) [
      | inl e ↦ (
        g ∙ flag_of-absent false ps acl'.granted q (absent_of p q ps d.0 e) ∙ rw e,
        w
            ∙ flag_of-absent true ps acl'.with_grant q (absent_of p q ps d.0 e)
            ∙ (u q (ground (arith, e))).1
            ∙ rw e,
      )
      | inr e ↦ (g ∙ flag_of-cong false ps acl'.granted acl.granted q (rw e) ∙ rw e, w ∙ rw e)
    ])

flag_of-lookup :
    (b : Bool) (ps : List (Privilege × Bool)) (q : Privilege)
    → flag_of b ps (λ p. false) q
      ≡ (elim (lookup q ps) [ none ↦ false | some g ↦ (if b then g else not g) ])
flag_of-lookup b [] q = refl
flag_of-lookup b ((p, g) ∷ ps) q = elim (Bool-cases (p == q)) [
  | inl e ↦ rw e
  | inr e ↦ rw e (flag_of-lookup b ps q)
]

-- When the expression splits an aclitem into a grantee, the letters of distinct privileges and a
-- grantor, the result holds exactly these privileges: one with a star is a grant option and not a
-- plain grant, one without a star a plain grant, and the grantee is quoted where the table has it.
pub parse_acl-print :
    (find : String → Option (String × String × String)) (quoted : GoMap String String)
    (item grantee grantor : String) (ps : List (Privilege × Bool))
    → IsDistinct (keys ps)
    → find item ≡ some (grantee, print_permissions ps, grantor)
    → (acl : Acl) × (parse_acl find quoted item ≡ some acl)
      × (acl.grantee ≡ (elim (lookup grantee quoted) [ some name ↦ name | none ↦ grantee ]))
      × ((q : Privilege) → acl.granted q ≡ (elim (lookup q ps) [ none ↦ false | some g ↦ not g ]))
      × ((q : Privilege) → acl.with_grant q ≡ (elim (lookup q ps) [ none ↦ false | some g ↦ g ]))
unfolding parse_acl
parse_acl-print find quoted item grantee grantor ps d split =
    let scanned =
      λ (q : Privilege). scan_permissions_lem ps none no_privileges q d (λ r h. (refl, refl)) in
    (
      _,
      rw (split, parse_acl),
      refl,
      λ q. (scanned q).0 ∙ flag_of-lookup false ps q,
      λ q. (scanned q).1 ∙ flag_of-lookup true ps q,
    )
