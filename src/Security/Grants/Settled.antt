-- ===== src/Security/Grants/Settled.antt =====
-- The store behind the synchronisation of one role (app/core/user_type_grants.py).
use Prim.Native.String.{String}
use dart_backend.Prelude.{
  ℕ, suc, ◌≡◌, ◌<◌, refl, sym, ap, subst, ◌∙◌, inl, inr, Bool, true, Option, none, some, List, [],
  ◌∷◌, ◌++◌, any, find, ◌==◌, string_eq, ==_refl, eq_of_==, Bool-cases, arith, find-some, In-snoc,
}
use dart_backend.Prelude.Distinct.{Distinct-map_snoc, Distinct-map_inj}
use dart_backend.Security.{Membership}
use dart_backend.Security.Grants.{
  Role, Store, has_name, privileges_of, add_privileges, find_role, role_or_new, get_or_create_role,
  is_grant, set_grant, sync_named_grant,
}
use dart_backend.Security.Grants.Parts.{
  IsFresh, Settled, Extends-has_name, add_privileges-Extends, add_privileges-HasAll,
  add_privileges-none, set_grant-is, set_grant-again, set_grant-other,
}

module _ (p : Role → Bool) where
  find_snoc-new :
      (roles : List Role) (r : Role)
      → find p roles ≡ none
      → p r ≡ true
      → find p (roles ++ r ∷ []) ≡ some r
  find_snoc-new [] r missing holds = rw holds refl
  find_snoc-new (x ∷ roles) r missing holds = elim (Bool-cases (p x)) [
    | inl here ↦ absurd (let c : some x ≡ none = (rw here at missing) in ground arith)
    | inr other ↦ rw other (find_snoc-new roles r (rw other at missing) holds)
  ]

  find_snoc-old :
      (roles : List Role) (r a : Role) → find p roles ≡ some a → find p (roles ++ r ∷ []) ≡ some a
  find_snoc-old [] r a found = absurd (ground arith)
  find_snoc-old (x ∷ roles) r a found = elim (Bool-cases (p x)) [
    | inl here ↦ rw here (let c : some x ≡ some a = (rw here at found) in c)
    | inr other ↦ rw other (find_snoc-old roles r a (rw other at found))
  ]

role_or_new-IsFresh :
    (role_name : String) (s : Store) (o : Option Role)
    → IsFresh s
    → find_role role_name s.roles ≡ o
    → let found = role_or_new role_name s o in
      IsFresh (found.1) × (find_role role_name (found.1).roles ≡ some (found.0))
unfolding find_role
role_or_new-IsFresh role_name s (some role) fresh found = (fresh, found)
role_or_new-IsFresh role_name s none (distinct, below) missing =
    let role : Role = record { id = s.next_id; name = role_name } in
    (
      (
        Distinct-map_snoc {A = Role} (λ r. r.id) role s.roles distinct
            (λ r there same. let h = below r there in absurd (omega arith)),
        (λ r there. elim (In-snoc r role s.roles there) [
          | inl old ↦ let h = below r old in omega arith
          | inr same ↦ subst (λ x. x.id < suc s.next_id) same (omega arith)
        ]),
      ),
      find_snoc-new (λ r. r.name == role_name) s.roles role missing (==_refl role_name),
    )

abbrev with_memberships : Store → List Membership → Store
with_memberships s ms = record s { tables = record s.tables { memberships = ms } }

abbrev with_grant : ℕ → ℕ → Bool → Store → Store
with_grant user role should t = with_memberships t (set_grant user role should t.tables.memberships)

-- The statements behind the query for the role.
abbrev granted : ℕ → List String → Bool → Role × Store → Store
granted user names should (role, s) =
    with_grant user role.id should
      (add_privileges role.id (privileges_of role.id s.tables.role_privileges) names s)

sync-granted :
    (user : ℕ) (role_name : String) (names : List String) (should : Bool) (s : Store)
    → sync_named_grant user role_name names should s
      ≡ granted user names should (role_or_new role_name s (find_role role_name s.roles))
unfolding sync_named_grant get_or_create_role
sync-granted user role_name names should s = refl

granted-Settled :
    (user : ℕ) (role_name : String) (names : List String) (should : Bool) (role : Role) (s : Store)
    → IsFresh s
    → find_role role_name s.roles ≡ some role
    → IsFresh (granted user names should (role, s))
      × Settled user role_name names should (granted user names should (role, s))
granted-Settled user role_name names should role s (distinct, below) found =
    let have = privileges_of role.id s.tables.role_privileges in
    let t = add_privileges role.id have names s in
    let (roles, next, members, pairs) = add_privileges-Extends role.id have names s in
    (
      (rw roles distinct, (λ r there. rw next (below r (rw roles at there)))),
      (
        role,
        rw roles found,
        add_privileges-HasAll role.id have names s (λ n h. h),
        set_grant-is user role.id should t.tables.memberships,
      ),
    )

pub sync-Settled :
    (user : ℕ) (role_name : String) (names : List String) (should : Bool) (s : Store)
    → IsFresh s
    → let t = sync_named_grant user role_name names should s in
      IsFresh t × Settled user role_name names should t
sync-Settled user role_name names should s fresh =
    let (fresh_role, found) =
      role_or_new-IsFresh role_name s (find_role role_name s.roles) fresh refl in
    let r = role_or_new role_name s (find_role role_name s.roles) in
    subst (λ t. IsFresh t × Settled user role_name names should t)
      (sym (sync-granted user role_name names should s))
      (granted-Settled user role_name names should (r.0) (r.1) fresh_role found)

-- A settled store is left as it is.
pub Settled-again :
    (user : ℕ) (role_name : String) (names : List String) (should : Bool) (s : Store)
    → Settled user role_name names should s
    → sync_named_grant user role_name names should s ≡ s
Settled-again user role_name names should s (role, found, has_all, members) =
    sync-granted user role_name names should s
    ∙ ap (λ (o : Option Role). granted user names should (role_or_new role_name s o)) found
    ∙ ap (with_grant user role.id should) (
        add_privileges-none role.id (privileges_of role.id s.tables.role_privileges) names s
          has_all)
    ∙ ap (with_memberships s) (set_grant-again user role.id should s.tables.memberships members)

-- The role of another name.
other_role :
    (name other : String) (s : Store) (role : Role) (o : Option Role)
    → IsFresh s
    → ¬ (name ≡ other)
    → find_role name s.roles ≡ some role
    → find_role other s.roles ≡ o
    → let found = role_or_new other s o in
      (find_role name (found.1).roles ≡ some role)
      × (¬ ((found.0).id ≡ role.id))
      × ((found.1).tables ≡ s.tables)
unfolding find_role
other_role name other s role (some r) (distinct, below) differ found found_other =
    let (there, named) = find-some (λ x. x.name == name) s.roles role found in
    let (there_other, named_other) = find-some (λ x. x.name == other) s.roles r found_other in
    (
      found,
      (λ same.
          let one =
            Distinct-map_inj {A = Role} (λ x. x.id) s.roles r role distinct there_other there
              same in
          differ (
            sym (eq_of_== role.name name named)
            ∙ sym (ap (λ x. x.name) one)
            ∙ eq_of_== r.name other named_other)),
      refl,
    )
other_role name other s role none (distinct, below) differ found missing =
    let (there, named) = find-some (λ x. x.name == name) s.roles role found in
    let low = below role there in
    (
      find_snoc-old (λ x. x.name == name) s.roles (record { id = s.next_id; name = other }) role
          found,
      (λ same. absurd (omega arith)),
      refl,
    )

-- What is settled for one role stays so when another is synchronised.
pub sync-other :
    (user : ℕ) (name other : String) (names other_names : List String) (should other_should : Bool)
    (s : Store)
    → IsFresh s
    → ¬ (name ≡ other)
    → Settled user name names should s
    → Settled user name names should (sync_named_grant user other other_names other_should s)
sync-other user name other names other_names should other_should s fresh differ
      (role, found, has_all, members) =
    let r = role_or_new other s (find_role other s.roles) in
    let (still, apart, tables) =
      other_role name other s role (find_role other s.roles) fresh differ found refl in
    let have = privileges_of (r.0).id (r.1).tables.role_privileges in
    let t = add_privileges (r.0).id have other_names (r.1) in
    let extends = add_privileges-Extends (r.0).id have other_names (r.1) in
    let (roles, next, same_members, pairs) = extends in
    subst (Settled user name names should)
      (sym (sync-granted user other other_names other_should s))
      (
        role,
        rw roles still,
        (λ n there. Extends-has_name (r.1) t n role.id extends (
            subst (λ x. has_name n (privileges_of role.id x.role_privileges) ≡ true) (sym tables)
              (has_all n there))),
        set_grant-other user (r.0).id role.id other_should t.tables.memberships apart
            ∙ ap (any (is_grant user role.id)) (same_members ∙ ap (λ x. x.memberships) tables)
            ∙ members,
      )
