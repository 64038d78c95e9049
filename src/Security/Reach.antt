-- ===== src/Security/Reach.antt =====
-- The groups that `accessible_group_ids` (app/core/scope_access.py) returns.
use dart_backend.Prelude.{
  ℕ, ◌≡◌, ◌↔◌, ◌⊎◌, inl, inr, refl, ap, subst, sym, Bool, true, List, [], ◌∷◌, ◌++◌, map, nat_beq,
  arith, In, In-keep, In-keep_of, In-append_left, In-append_right, any-true_at, any-witness,
  nat_beq_iff,
}
use dart_backend.Security.{
  ScopeType, Membership, Tables, is_group, is_lob, is_team, scope_ids, groups_of,
  accessible_group_ids,
}

In-map : {A B : Type 0} (f : A → B) (xs : List A) (a : A) → In a xs → In (f a) (map f xs)
In-map f [] a there = absurd there
In-map f (x ∷ xs) a (inl e) = inl (ap f e)
In-map f (x ∷ xs) a (inr there) = inr (In-map f xs a there)

map-In :
    {A B : Type 0} (f : A → B) (xs : List A) (b : B)
    → In b (map f xs)
    → (a : A) × In a xs × (f a ≡ b)
map-In f [] b there = absurd there
map-In f (x ∷ xs) b (inl e) = (x, inl refl, e)
map-In f (x ∷ xs) b (inr there) = let (a, i, e) = map-In f xs b there in (a, inr i, e)

In-split : {A : Type 0} (a : A) (xs ys : List A) → In a (xs ++ ys) → In a xs ⊎ In a ys
In-split a [] ys there = inr there
In-split a (x ∷ xs) ys (inl e) = inl (inl e)
In-split a (x ∷ xs) ys (inr there) = elim (In-split a xs ys there) [
  | inl i ↦ inl (inr i)
  | inr i ↦ inr i
]

-- What a membership reaches: the group itself, or the groups that its LOB or team has.
abbrev pub Scope : Tables → Membership → ℕ → Type 0
Scope db m g =
    ((is_group m.scope_type ≡ true) × (m.scope_id ≡ g))
    ⊎ ((is_lob m.scope_type ≡ true) × In (g, m.scope_id) db.group_lobs)
    ⊎ ((is_team m.scope_type ≡ true) × In (g, m.scope_id) db.group_teams)

abbrev pub Reaches : Tables → ℕ → ℕ → Type 0
Reaches db user g = (m : Membership) × In m db.memberships × (m.user_id ≡ user) × Scope db m g

module _ (of_type : ScopeType → Bool) (user : ℕ) (memberships : List Membership) where
  scope_ids-In :
      (n : ℕ)
      → In n (scope_ids of_type user memberships)
      → (m : Membership) × In m memberships
        × (m.user_id ≡ user)
        × (of_type m.scope_type ≡ true)
        × (m.scope_id ≡ n)
  scope_ids-In n there =
      let (m, kept, e) = map-In _ _ n there in
      let (i, both) = In-keep _ memberships m kept in (m, i, ground arith, ground arith, e)

  In-scope_ids :
      (m : Membership)
      → In m memberships
      → m.user_id ≡ user
      → of_type m.scope_type ≡ true
      → In m.scope_id (scope_ids of_type user memberships)
  In-scope_ids m i mine typed = In-map _ _ m (In-keep_of _ memberships m i (ground arith))

groups_of-In :
    (ids : List ℕ) (table : List (ℕ × ℕ)) (g : ℕ)
    → In g (groups_of ids table)
    → (n : ℕ) × In n ids × In (g, n) table
groups_of-In ids table g there =
    let ((h, n), kept, e) = map-In _ _ g there in
    let (i, found) = In-keep _ table (h, n) kept in
    let (k, k_in, same) = any-witness (λ j. nat_beq j n) ids found in
    (n, subst (λ j. In j ids) ((nat_beq_iff k n).0 same) k_in, subst (λ j. In (j, n) table) e i)

In-groups_of :
    (ids : List ℕ) (table : List (ℕ × ℕ)) (g n : ℕ)
    → In n ids
    → In (g, n) table
    → In g (groups_of ids table)
In-groups_of ids table g n known there =
    In-map _ _ (g, n)
      (In-keep_of _ table (g, n) there
        (any-true_at (λ j. nat_beq j n) ids n known ((nat_beq_iff n n).1 refl)))

reaches : (db : Tables) (user g : ℕ) → In g (accessible_group_ids db user) → Reaches db user g
unfolding accessible_group_ids
reaches db user g there =
    elim (In-split g (scope_ids is_group user db.memberships)
      (groups_of (scope_ids is_lob user db.memberships) db.group_lobs
        ++ groups_of (scope_ids is_team user db.memberships) db.group_teams)
      there) [
        | inl direct ↦
            let (m, i, mine, typed, e) = scope_ids-In is_group user db.memberships g direct in
            (m, i, mine, inl (typed, e))
        | inr inherited ↦
            elim (In-split g (groups_of (scope_ids is_lob user db.memberships) db.group_lobs) _
              inherited) [
                | inl by_lob ↦
                    let (n, known, pair) = groups_of-In _ db.group_lobs g by_lob in
                    let (m, i, mine, typed, e) = scope_ids-In is_lob user db.memberships n known in
                    (
                      m,
                      i,
                      mine,
                      inr (inl (typed, subst (λ j. In (g, j) db.group_lobs) (sym e) pair)),
                    )
                | inr by_team ↦
                    let (n, known, pair) = groups_of-In _ db.group_teams g by_team in
                    let (m, i, mine, typed, e) = scope_ids-In is_team user db.memberships n known in
                    (
                      m,
                      i,
                      mine,
                      inr (inr (typed, subst (λ j. In (g, j) db.group_teams) (sym e) pair)),
                    )
              ]
      ]

reached : (db : Tables) (user g : ℕ) → Reaches db user g → In g (accessible_group_ids db user)
unfolding accessible_group_ids
reached db user g (m, i, mine, scope) = elim scope [
  | inl (typed, e) ↦
      In-append_left g (scope_ids is_group user db.memberships)
        (groups_of (scope_ids is_lob user db.memberships) db.group_lobs
          ++ groups_of (scope_ids is_team user db.memberships) db.group_teams)
        (subst (λ j. In j (scope_ids is_group user db.memberships)) e
          (In-scope_ids is_group user db.memberships m i mine typed))
  | inr (inl (typed, pair)) ↦
      In-append_right g (scope_ids is_group user db.memberships)
        (groups_of (scope_ids is_lob user db.memberships) db.group_lobs
          ++ groups_of (scope_ids is_team user db.memberships) db.group_teams)
        (In-append_left g (groups_of (scope_ids is_lob user db.memberships) db.group_lobs) _ (
          In-groups_of _ db.group_lobs g m.scope_id
            (In-scope_ids is_lob user db.memberships m i mine typed) pair))
  | inr (inr (typed, pair)) ↦
      In-append_right g (scope_ids is_group user db.memberships)
        (groups_of (scope_ids is_lob user db.memberships) db.group_lobs
          ++ groups_of (scope_ids is_team user db.memberships) db.group_teams)
        (In-append_right g (groups_of (scope_ids is_lob user db.memberships) db.group_lobs) _ (
          In-groups_of _ db.group_teams g m.scope_id
            (In-scope_ids is_team user db.memberships m i mine typed) pair))
]

-- A group is accessible to a user exactly if one of the user's memberships is in the group, in an
-- LOB that the group belongs to, or in a team that the group belongs to.
pub In-accessible_group_ids :
    (db : Tables) (user g : ℕ) → In g (accessible_group_ids db user) ↔ Reaches db user g
In-accessible_group_ids db user g = (reaches db user g, reached db user g)
