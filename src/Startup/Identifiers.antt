-- ===== src/Startup/Identifiers.antt =====
-- The identifiers that the servers of a cluster get from their arguments.
use my_etcd.Base.{
  ℕ, ◌+◌, ◌≡◌, ◌<◌, refl, ap, sym, ◌∙◌, arith, Bool, Bool-cases, inl, inr, List, [], ◌∷◌, ◌++◌,
  Option, Option-cases, none, some, if◌then◌else◌, Bytes, nat_key, str_eq, subst,
}
use my_etcd.OrdMap.{OrdMap, lookup, insert, lookup-insert}
use my_etcd.Server.Json.{codes}
use my_etcd.Http.Text.{cut, lines_of}
use my_etcd.Startup.{Cluster, add_member, member_round, parse_members, parse_initial_cluster}

-- The address that stands last under a name in a cluster's text.
abbrev pub named_address : Bytes → Option (Bytes × Bytes) → Option Bytes → Option Bytes
named_address name none later = later
named_address name (some (n, addr)) (some later) = some later
named_address name (some (n, addr)) none = if str_eq n name then some addr else none

unfoldable pub address_of : Bytes → List Bytes → Option Bytes
unfolding cut
address_of name [] = none
address_of name (part ∷ parts) = named_address name (cut (codes "=") part) (address_of name parts)

module _ (self_name : Bytes) where
  parse_members-cut :
      (part : Bytes) (parts : List Bytes) (id : ℕ) (c : Cluster) (o : Option (Bytes × Bytes))
      → cut (codes "=") part ≡ o
      → parse_members self_name (part ∷ parts) id c
        ≡ member_round self_name id part (parse_members self_name parts) c o
  unfolding parse_members
  parse_members-cut part parts id c o e =
      ap (member_round self_name id part (parse_members self_name parts) c) e

  -- The addresses of smaller identifiers stay.
  lookup-parse_members :
      (parts : List Bytes) (id j : ℕ) (c : Cluster)
      → j < id
      → lookup j (parse_members self_name parts id c).addresses ≡ lookup j c.addresses
  unfolding parse_members
  lookup-parse_members [] id j c h = refl
  lookup-parse_members (part ∷ parts) id j c h = elim (Option-cases (cut (codes "=") part)) [
    | inl bare ↦
        ap (λ r. lookup j r.addresses) (parse_members-cut part parts id c none bare)
        ∙ lookup-parse_members parts id j c h
    | inr (named, found) ↦
        ap (λ r. lookup j r.addresses) (parse_members-cut part parts id c (some named) found)
        ∙ lookup-parse_members parts (id + 1) j (add_member self_name id part named c) (omega arith)
        ∙ lookup-insert id j named.1 c.addresses
        ∙ ground arith
  ]

  -- The identifier of a server is that of its address, if the text has its name.
  abbrev pub IsNamed : ℕ → Cluster → Option Bytes → Type 0
  IsNamed before after none = after.self_node_id ≡ before
  IsNamed before after (some addr) = lookup after.self_node_id after.addresses ≡ some addr

  IsNamed-add :
      (part : Bytes) (parts : List Bytes) (id : ℕ) (c : Cluster) (named : Bytes × Bytes)
      (later : Option Bytes)
      → IsNamed
          (add_member self_name id part named c).self_node_id
          (parse_members self_name parts (id + 1) (add_member self_name id part named c))
          later
      → IsNamed c.self_node_id
          (parse_members self_name parts (id + 1) (add_member self_name id part named c))
          (named_address self_name (some named) later)
  IsNamed-add part parts id c named (some addr) h = h
  IsNamed-add part parts id c named none h = elim (Bool-cases (str_eq named.0 self_name)) [
    | inl mine ↦
        let own : (parse_members self_name parts (id + 1)
              (add_member self_name id part named c)).self_node_id
            ≡ id =
          h ∙ rw mine in
        subst
          (λ (o : Option Bytes).
            IsNamed c.self_node_id
              (parse_members self_name parts (id + 1) (add_member self_name id part named c)) o)
          (sym (ap (λ (b : Bool). if b then some named.1 else none) mine))
          (ap
              (λ i.
                lookup i
                  (parse_members self_name parts (id + 1)
                    (add_member self_name id part named c)).addresses)
              own
            ∙ lookup-parse_members parts (id + 1) id (add_member self_name id part named c)
                (omega arith)
            ∙ lookup-insert id id named.1 c.addresses
            ∙ ground arith)
    | inr other ↦
        subst
          (λ (o : Option Bytes).
            IsNamed c.self_node_id
              (parse_members self_name parts (id + 1) (add_member self_name id part named c)) o)
          (sym (ap (λ (b : Bool). if b then some named.1 else none) other)) (h ∙ rw other)
  ]

  -- Both sides of the loop's next round, for a part that is cut into `o`.
  IsNamed-cut :
      (part : Bytes) (parts : List Bytes) (id : ℕ) (c : Cluster) (o : Option (Bytes × Bytes))
      → cut (codes "=") part ≡ o
      → IsNamed c.self_node_id
          (member_round self_name id part (parse_members self_name parts) c o)
          (named_address self_name o (address_of self_name parts))
      → IsNamed c.self_node_id
          (parse_members self_name (part ∷ parts) id c)
          (address_of self_name (part ∷ parts))
  unfolding parse_members address_of
  IsNamed-cut part parts id c o e =
      subst
        (λ (o : Option (Bytes × Bytes)).
          IsNamed c.self_node_id
            (member_round self_name id part (parse_members self_name parts) c o)
            (named_address self_name o (address_of self_name parts)))
        (sym e)

  parse_members-nil :
      (id : ℕ) (c : Cluster)
      → IsNamed c.self_node_id (parse_members self_name [] id c) (address_of self_name [])
  unfolding parse_members address_of
  parse_members-nil id c = refl

  parse_members-IsNamed :
      (parts : List Bytes) (id : ℕ) (c : Cluster)
      → IsNamed c.self_node_id (parse_members self_name parts id c) (address_of self_name parts)
  parse_members-IsNamed [] id c = parse_members-nil id c
  parse_members-IsNamed (part ∷ parts) id c = elim (Option-cases (cut (codes "=") part)) [
    | inl bare ↦ IsNamed-cut part parts id c none bare (parse_members-IsNamed parts id c)
    | inr (named, found) ↦ IsNamed-cut part parts id c (some named) found (
        IsNamed-add part parts id c named (address_of self_name parts)
          (parse_members-IsNamed parts (id + 1) (add_member self_name id part named c)))
  ]

-- Where two servers read the same text, their members and addresses stay the same.
abbrev pub Agrees : Cluster → Cluster → Type 0
Agrees c d = (c.members ≡ d.members) × (c.addresses ≡ d.addresses)

Agrees-nil :
    (name₁ name₂ : Bytes) (id : ℕ) (c d : Cluster)
    → Agrees c d
    → Agrees (parse_members name₁ [] id c) (parse_members name₂ [] id d)
unfolding parse_members
Agrees-nil name₁ name₂ id c d same = same

Agrees-cut :
    (name₁ name₂ part : Bytes) (parts : List Bytes) (id : ℕ) (c d : Cluster)
    (o : Option (Bytes × Bytes))
    → cut (codes "=") part ≡ o
    → Agrees
        (member_round name₁ id part (parse_members name₁ parts) c o)
        (member_round name₂ id part (parse_members name₂ parts) d o)
    → Agrees (parse_members name₁ (part ∷ parts) id c) (parse_members name₂ (part ∷ parts) id d)
unfolding parse_members
Agrees-cut name₁ name₂ part parts id c d o e =
    subst
      (λ (o : Option (Bytes × Bytes)).
        Agrees (member_round name₁ id part (parse_members name₁ parts) c o)
          (member_round name₂ id part (parse_members name₂ parts) d o))
      (sym e)

parse_members-Agrees :
    (name₁ name₂ : Bytes) (parts : List Bytes) (id : ℕ) (c d : Cluster)
    → Agrees c d
    → Agrees (parse_members name₁ parts id c) (parse_members name₂ parts id d)
parse_members-Agrees name₁ name₂ [] id c d same = Agrees-nil name₁ name₂ id c d same
parse_members-Agrees name₁ name₂ (part ∷ parts) id c d same =
    elim (Option-cases (cut (codes "=") part)) [
      | inl bare ↦
          Agrees-cut name₁ name₂ part parts id c d none bare
            (parse_members-Agrees name₁ name₂ parts id c d same)
      | inr (named, found) ↦ Agrees-cut name₁ name₂ part parts id c d (some named) found (
          parse_members-Agrees name₁ name₂ parts (id + 1) (add_member name₁ id part named c)
            (add_member name₂ id part named d)
            (ap (λ m. m ++ part ∷ []) same.0, ap (insert id named.1) same.1))
    ]

-- Two servers that read the same `--initial-cluster` text over the same addresses, whatever their names and
-- identifiers, get the same members and the same addresses. The first one's identifier leads to the address
-- that stands last under its name in the text; it is the one from before if the text does not have the name.
pub parse_initial_cluster-agree :
    (text name₁ name₂ : Bytes) (id₁ id₂ : ℕ) (addresses : OrdMap ℕ Bytes)
    → Agrees
        (parse_initial_cluster text name₁ id₁ addresses)
        (parse_initial_cluster text name₂ id₂ addresses)
      × IsNamed name₁ id₁
          (parse_initial_cluster text name₁ id₁ addresses)
          (address_of name₁ (lines_of b',' text))
unfolding parse_initial_cluster
parse_initial_cluster-agree text name₁ name₂ id₁ id₂ addresses = (
  parse_members-Agrees name₁ name₂ (lines_of b',' text) 1 _ _ (refl, refl),
  parse_members-IsNamed name₁ (lines_of b',' text) 1 _,
)
