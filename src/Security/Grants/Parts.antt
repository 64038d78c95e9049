-- ===== src/Security/Grants/Parts.antt =====
-- The privileges of a role and the memberships of a user behind the statements of
-- app/core/user_type_grants.py.
use mathlib.Core.List.{append-nil, append_assoc}
use Prim.Native.String.{String}
use dart_backend.Prelude.{
  ℕ, ◌≡◌, ◌<◌, refl, sym, ap, subst, ◌∙◌, inl, inr, Bool, true, false, ◌||◌, not, Option, none,
  some, List, [], ◌∷◌, ◌++◌, keep, map, any, nat_beq, ◌==◌, string_eq, ==_refl, Bool-cases, arith,
  In, any-append, any-true_at, In-append_right,
}
use dart_backend.Prelude.Distinct.{Distinct}
use dart_backend.Security.{Membership}
use dart_backend.Security.Grants.{
  Role, Store, has_name, privileges_of, grant_privilege, add_privileges, find_role, is_grant,
  is_role, new_grant, set_grant,
}

-- The identifiers of the roles are distinct and below the next one.
abbrev pub IsFresh : Store → Type 0
IsFresh s =
    Distinct (map {A = Role} (λ r. r.id) s.roles) × ((r : Role) → In r s.roles → r.id < s.next_id)

-- The role has each of the names among its privileges.
abbrev pub HasAll : List String → ℕ → Store → Type 0
HasAll names role s =
    (n : String) → In n names → has_name n (privileges_of role s.tables.role_privileges) ≡ true

-- The store agrees with what the user should have.
abbrev pub Settled : ℕ → String → List String → Bool → Store → Type 0
Settled user role_name names should s =
    (role : Role) × (find_role role_name s.roles ≡ some role)
    × HasAll names role.id s
    × (any (is_grant user role.id) s.tables.memberships ≡ should)

privileges_of-append :
    (role : ℕ) (ps qs : List (ℕ × String))
    → privileges_of role (ps ++ qs) ≡ privileges_of role ps ++ privileges_of role qs
privileges_of-append role [] qs = refl
privileges_of-append role (p ∷ ps) qs = elim (Bool-cases (nat_beq (p.0) role)) [
  | inl mine ↦ rw mine (ap (λ zs. p.1 ∷ zs) (privileges_of-append role ps qs))
  | inr other ↦ rw other (privileges_of-append role ps qs)
]

-- A privilege that a role has, it has when pairs are added.
has_name-append :
    (n : String) (role : ℕ) (ps qs : List (ℕ × String))
    → has_name n (privileges_of role ps) ≡ true
    → has_name n (privileges_of role (ps ++ qs)) ≡ true
has_name-append n role ps qs h =
    rw (privileges_of-append role ps qs)
      (any-append (λ x. x == n) (privileges_of role ps) (privileges_of role qs) h)

has_name-own :
    (n : String) (role : ℕ) (ps : List (ℕ × String))
    → has_name n (privileges_of role (ps ++ (role, n) ∷ [])) ≡ true
has_name-own n role ps =
    let mine : nat_beq role role ≡ true = ground arith in
    rw (privileges_of-append role ps ((role, n) ∷ []), mine)
      (any-true_at (λ x. x == n) (privileges_of role ps ++ n ∷ []) n
        (In-append_right n (privileges_of role ps) (n ∷ []) (inl refl)) (==_refl n))

-- What the loop over the names leaves: the roles, the memberships and the old pairs stay.
abbrev Extends : Store → Store → Type 0
Extends s t =
    (t.roles ≡ s.roles)
    × (t.next_id ≡ s.next_id)
    × (t.tables.memberships ≡ s.tables.memberships)
    × ((qs : List (ℕ × String)) × (t.tables.role_privileges ≡ s.tables.role_privileges ++ qs))

pub Extends-has_name :
    (s t : Store) (n : String) (role : ℕ)
    → Extends s t
    → has_name n (privileges_of role s.tables.role_privileges) ≡ true
    → has_name n (privileges_of role t.tables.role_privileges) ≡ true
Extends-has_name s t n role (roles, next, members, (qs, pairs)) h =
    rw pairs (has_name-append n role s.tables.role_privileges qs h)

pub add_privileges-Extends :
    (role : ℕ) (have names : List String) (s : Store) → Extends s (add_privileges role have names s)
unfolding add_privileges
add_privileges-Extends role have [] s =
    (refl, refl, refl, ([], sym (append-nil s.tables.role_privileges)))
add_privileges-Extends role have (n ∷ names) s = elim (Bool-cases (has_name n have)) [
  | inl had ↦ rw (add_privileges, had) (add_privileges-Extends role have names s)
  | inr missing ↦
      let (roles, next, members, (qs, pairs)) =
        add_privileges-Extends role have names (grant_privilege role n s) in
      rw (add_privileges, missing)
        (
          roles,
          next,
          members,
          ((role, n) ∷ qs, pairs ∙ append_assoc s.tables.role_privileges ((role, n) ∷ []) qs),
        )
]

pub add_privileges-HasAll :
    (role : ℕ) (have names : List String) (s : Store)
    → ((n : String)
        → has_name n have ≡ true
        → has_name n (privileges_of role s.tables.role_privileges) ≡ true)
    → HasAll names role (add_privileges role have names s)
unfolding add_privileges
add_privileges-HasAll role have [] s old n there = absurd there
add_privileges-HasAll role have (m ∷ names) s old n there = elim (Bool-cases (has_name m have)) [
  | inl had ↦
      rw (add_privileges, had)
        (elim there [
          | inl same ↦
              Extends-has_name s (add_privileges role have names s) n role
                (add_privileges-Extends role have names s)
                (subst (λ x. has_name x (privileges_of role s.tables.role_privileges) ≡ true) same
                  (old m had))
          | inr later ↦ add_privileges-HasAll role have names s old n later
        ])
  | inr missing ↦
      let t = grant_privilege role m s in
      rw (add_privileges, missing)
        (elim there [
          | inl same ↦
              Extends-has_name t (add_privileges role have names t) n role
                (add_privileges-Extends role have names t)
                (subst (λ x. has_name x (privileges_of role t.tables.role_privileges) ≡ true) same
                  (has_name-own m role s.tables.role_privileges))
          | inr later ↦
              add_privileges-HasAll role have names t
                (λ x h. has_name-append x role s.tables.role_privileges ((role, m) ∷ []) (old x h))
                n later
        ])
]

-- Nothing is added for a role that has all names.
pub add_privileges-none :
    (role : ℕ) (have names : List String) (s : Store)
    → ((n : String) → In n names → has_name n have ≡ true)
    → add_privileges role have names s ≡ s
unfolding add_privileges
add_privileges-none role have [] s all_there = refl
add_privileges-none role have (n ∷ names) s all_there =
    rw (all_there n (inl refl)) (add_privileges-none role have names s (λ x i. all_there x (inr i)))

module _ (p : Membership → Bool) where
  any_snoc : (ms : List Membership) (x : Membership) → any p (ms ++ x ∷ []) ≡ (any p ms || p x)
  any_snoc [] x = ground arith
  any_snoc (m ∷ ms) x = ground (arith, any_snoc ms x)

  any_dropped : (ms : List Membership) → any p (keep (λ m. not (p m)) ms) ≡ false
  any_dropped [] = refl
  any_dropped (m ∷ ms) = elim (Bool-cases (p m)) [
    | inl holds ↦ rw holds (any_dropped ms)
    | inr fails ↦ rw fails (rw fails (any_dropped ms))
  ]

  any_kept :
      (q : Membership → Bool) (ms : List Membership)
      → ((m : Membership) → p m ≡ true → q m ≡ false)
      → any q (keep (λ m. not (p m)) ms) ≡ any q ms
  any_kept q [] apart = refl
  any_kept q (m ∷ ms) apart = elim (Bool-cases (p m)) [
    | inl holds ↦ rw (holds, apart m holds) (any_kept q ms apart)
    | inr fails ↦ rw fails (ap (λ b. q m || b) (any_kept q ms apart))
  ]

is_grant-new : (user role : ℕ) → is_grant user role (new_grant user role) ≡ true
is_grant-new user role = ground arith

is_role-other :
    (o : Option ℕ) (role other : ℕ)
    → ¬ (role ≡ other)
    → is_role o role ≡ true
    → is_role o other ≡ false
is_role-other none role other differ h = refl
is_role-other (some r) role other differ h = elim (Bool-cases (nat_beq r other)) [
  | inr apart ↦ apart
  | inl same ↦ absurd (differ (ground arith))
]

is_grant-other :
    (user role other : ℕ) (m : Membership)
    → ¬ (role ≡ other)
    → is_grant user role m ≡ true
    → is_grant user other m ≡ false
is_grant-other user role other m differ h =
    let here : is_role m.role_id role ≡ true = ground arith in
    let no_role = is_role-other m.role_id role other differ here in ground arith

-- A membership that is set as it should be.
pub set_grant-is :
    (user role : ℕ) (should : Bool) (ms : List Membership)
    → any (is_grant user role) (set_grant user role should ms) ≡ should
unfolding set_grant
set_grant-is user role true ms = elim (Bool-cases (any (is_grant user role) ms)) [
  | inl there ↦ rw there there
  | inr missing ↦ rw missing (
      any_snoc (is_grant user role) ms (new_grant user role)
      ∙ (rw (missing, is_grant-new user role) refl))
]
set_grant-is user role false ms = elim (Bool-cases (any (is_grant user role) ms)) [
  | inl there ↦ rw there (any_dropped (is_grant user role) ms)
  | inr missing ↦ rw missing missing
]

pub set_grant-again :
    (user role : ℕ) (should : Bool) (ms : List Membership)
    → any (is_grant user role) ms ≡ should
    → set_grant user role should ms ≡ ms
unfolding set_grant
set_grant-again user role true ms h = rw h refl
set_grant-again user role false ms h = rw h refl

-- The grants of another role stay.
pub set_grant-other :
    (user role other : ℕ) (should : Bool) (ms : List Membership)
    → ¬ (role ≡ other)
    → any (is_grant user other) (set_grant user role should ms) ≡ any (is_grant user other) ms
unfolding set_grant
set_grant-other user role other true ms differ = elim (Bool-cases (any (is_grant user role) ms)) [
  | inl there ↦ rw there refl
  | inr missing ↦
      let apart =
        is_grant-other user role other (new_grant user role) differ (is_grant-new user role) in
      rw missing (any_snoc (is_grant user other) ms (new_grant user role) ∙ ground (arith, apart))
]
set_grant-other user role other false ms differ = elim (Bool-cases (any (is_grant user role) ms)) [
  | inl there ↦ rw there (
      any_kept (is_grant user role) (is_grant user other) ms
        (λ m. is_grant-other user role other m differ))
  | inr missing ↦ rw missing refl
]
