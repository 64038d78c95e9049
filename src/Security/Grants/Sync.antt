-- ===== src/Security/Grants/Sync.antt =====
-- A synchronisation of the types of a user, and a second one (app/core/user_type_grants.py).
use Prim.Native.String.{String}
use dart_backend.Prelude.{
  ℕ, ◌≡◌, refl, sym, ap, subst, ◌∙◌, ◌⊎◌, inl, inr, Bool, true, ◌&&◌, Option, none, some, List, [],
  ◌∷◌, any, nat_beq, ◌==◌, ==_refl, string_eq, Bool-cases, arith, In, any-witness, any-true_at,
}
use dart_backend.Security.{Tables, Account, role_grants, membership_grants, user_has_privilege}
use dart_backend.Security.Grants.{
  Store, has_name, privileges_of, is_grant, is_role, sync_named_grant, sync_user_type_grants,
  security_user_types, recon_user_type, security_role_name, recon_role_name,
}
use dart_backend.Security.Grants.Settled.{sync-Settled, Settled-again, sync-other}
use dart_backend.Security.Grants.Parts.{IsFresh, Settled}

abbrev security_names : List String
security_names = "security:manage" ∷ []

abbrev recon_names : List String
recon_names = "execute_recon" ∷ "read_recon" ∷ []

abbrev is_security : Account → Bool
is_security user = any (λ t. has_name t security_user_types) user.user_types

abbrev is_recon : Account → Bool
is_recon user = has_name recon_user_type user.user_types

differ : ¬ (security_role_name ≡ recon_role_name)
differ same =
    let equal : (security_role_name == recon_role_name) ≡ true =
      subst (λ n. (security_role_name == n) ≡ true) same (==_refl security_role_name) in
    absurd (ground arith)

-- The store is settled for both roles.
both-Settled :
    (user : Account) (s : Store)
    → IsFresh s
    → let t = (sync_user_type_grants user s).1 in
      Settled user.id security_role_name security_names (is_security user) t
      × Settled user.id recon_role_name recon_names (is_recon user) t
unfolding sync_user_type_grants
both-Settled user s fresh =
    let (fresh', secured) =
      sync-Settled user.id security_role_name security_names (is_security user) s fresh in
    let t = sync_named_grant user.id security_role_name security_names (is_security user) s in
    let (fresh'', recon) =
      sync-Settled user.id recon_role_name recon_names (is_recon user) t fresh' in
    (
      sync-other user.id security_role_name recon_role_name security_names recon_names
          (is_security user) (is_recon user) t fresh' differ secured,
      recon,
    )

-- In a store whose roles have distinct identifiers below the next one, a second synchronisation
-- of the types of a user changes neither the user nor the store.
pub sync_user_type_grants_again :
    (user : Account) (s : Store)
    → IsFresh s
    → let left = sync_user_type_grants user s in sync_user_type_grants (left.0) (left.1) ≡ left
unfolding sync_user_type_grants
sync_user_type_grants_again user s fresh =
    let left = sync_user_type_grants user s in
    let (secured, recon) = both-Settled user s fresh in
    let first =
      Settled-again user.id security_role_name security_names (is_security user) (left.1) secured in
    let second = Settled-again user.id recon_role_name recon_names (is_recon user) (left.1) recon in
    ap (λ t. (left.0, t))
      (ap (sync_named_grant user.id recon_role_name recon_names (is_recon user)) first ∙ second)

-- The role has the privilege by its pairs.
role_grants-has_name :
    (db : Tables) (n : String) (role : ℕ)
    → has_name n (privileges_of role db.role_privileges) ≡ true
    → role_grants db n role ≡ true
role_grants-has_name db n role h = pairs_grant db.role_privileges h
  where
    pairs_grant :
        (ps : List (ℕ × String))
        → has_name n (privileges_of role ps) ≡ true
        → any (λ p. nat_beq (p.0) role && p.1 == n) ps ≡ true
    pairs_grant [] h = absurd (ground arith)
    pairs_grant (p ∷ ps) h = elim (Bool-cases (nat_beq (p.0) role)) [
      | inr other ↦ rw other (pairs_grant ps (rw other at h))
      | inl mine ↦ elim (Bool-cases (p.1 == n)) [
        | inl here ↦ rw (mine, here) refl
        | inr differs ↦
            rw (mine, differs) (pairs_grant ps (let h' = (rw (mine, differs) at h) in h'))
      ]
    ]

membership_grants-role :
    (db : Tables) (n : String) (o : Option ℕ) (role : ℕ)
    → is_role o role ≡ true
    → role_grants db n role ≡ true
    → membership_grants db n o ≡ true
membership_grants-role db n none role is h = absurd (ground arith)
membership_grants-role db n (some r) role is h = let same : r ≡ role = ground arith in rw same h

-- A privilege that a type of the user stands for.
abbrev pub Entitled : Account → String → Type 0
Entitled user n =
    ((is_security user ≡ true) × (n ≡ "security:manage"))
    ⊎ ((is_recon user ≡ true) × In n ("execute_recon" ∷ "read_recon" ∷ []))

Settled-user_has_privilege :
    (user : ℕ) (role_name : String) (names : List String) (s : Store) (n : String)
    → Settled user role_name names true s
    → In n names
    → user_has_privilege s.tables user n ≡ true
unfolding user_has_privilege
Settled-user_has_privilege user role_name names s n (role, found, has_all, members) there =
    let (m, m_there, granted) = any-witness (is_grant user role.id) s.tables.memberships members in
    let grants =
      membership_grants-role s.tables n m.role_id role.id (ground arith)
        (role_grants-has_name s.tables n role.id (has_all n there)) in
    let found_one : any (λ x. nat_beq x.user_id user && membership_grants s.tables n x.role_id)
          s.tables.memberships
        ≡ true =
      any-true_at (λ x. nat_beq x.user_id user && membership_grants s.tables n x.role_id)
        s.tables.memberships m m_there (ground (arith, grants)) in
    rw found_one refl

-- Once the types of a user are synchronised, in a store whose roles have distinct identifiers below the
-- next one, the user has each privilege that a type of the user stands for.
pub user_has_privilege-sync_user_type_grants :
    (user : Account) (s : Store) (n : String)
    → IsFresh s
    → Entitled user n
    → user_has_privilege (sync_user_type_grants user s).1.tables user.id n ≡ true
user_has_privilege-sync_user_type_grants user s n fresh (inl (typed, named)) =
    let (secured, recon) = both-Settled user s fresh in
    let t = (sync_user_type_grants user s).1 in
    Settled-user_has_privilege user.id security_role_name security_names t n
      (subst (λ b. Settled user.id security_role_name security_names b t) typed secured)
      (inl (sym named))
user_has_privilege-sync_user_type_grants user s n fresh (inr (typed, named)) =
    let (secured, recon) = both-Settled user s fresh in
    let t = (sync_user_type_grants user s).1 in
    Settled-user_has_privilege user.id recon_role_name recon_names t n
      (subst (λ b. Settled user.id recon_role_name recon_names b t) typed recon) named
