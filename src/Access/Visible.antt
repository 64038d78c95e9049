-- ===== src/Access/Visible.antt =====
-- `is_component_visible` and `ancestors_of` (app/core/component_access.py, ui_components.py) along the
-- parents of a component.
use dart_backend.Prelude.{
  ◌≡◌, refl, ap, subst, sym, ◌∙◌, Bool, true, false, Option, none, some, List, [], ◌∷◌, ◌&&◌, ◌||◌,
  arith, inl, inr, all, any, find, In, if◌then◌else◌, ◌==◌, list_eq, string_eq, eq_of_==, list_beq,
  Bool-cases, Option-cases, some_inj,
}
use dart_backend.Access.Catalog.{
  UiComponent, components, first_components, second_components, third_components,
}
use dart_backend.Access.{
  component_by_key, chain_from, ancestors_of, is_component_visible, component_visible,
  is_platform_only, locked_or, own_enabled_state, User, UiComponentSetting,
}
use Prim.Native.String.{String}

-- The parents of a component, by the loop's condition and body.
abbrev pub parents : Option UiComponent → List String
parents none = []
parents (some c) = elim c.parent [ none ↦ [] | some p ↦ p ∷ ancestors_of p ]

chains : all (λ c. ancestors_of c.key == parents (some c)) components ≡ true
unfolding ancestors_of chain_from component_by_key components first_components second_components
    third_components list_beq
chains = refl

all_at : {A : Type 0} (p : A → Bool) (xs : List A) (a : A) → all p xs ≡ true → In a xs → p a ≡ true
all_at p [] a h there = absurd there
all_at p (x ∷ xs) a h (inl e) = rw (← e) (ground arith)
all_at p (x ∷ xs) a h (inr there) = all_at p xs a (ground arith) there

find-In :
    {A : Type 0} (p : A → Bool) (xs : List A) (a : A) → find p xs ≡ some a → In a xs × (p a ≡ true)
find-In p [] a h = cc
find-In p (x ∷ xs) a h = elim (Bool-cases (p x)) [
  | inl found ↦ let same : x ≡ a = some_inj x a (rw found at h) in (inl same, rw (← same) found)
  | inr not_found ↦ let (there, yes_a) = find-In p xs a (rw not_found at h) in (inr there, yes_a)
]

known_component :
    (key : String) (c : UiComponent)
    → component_by_key key ≡ some c
    → In c components × ((c.key == key) ≡ true)
unfolding component_by_key
known_component key c h = find-In (λ d. d.key == key) components c h

unknown_key : (key : String) → component_by_key key ≡ none → ancestors_of key ≡ []
unfolding ancestors_of chain_from
unknown_key key h = rw h refl

-- The parents that the loop of `ancestors_of` collects are, for every key, those of its equation:
-- nothing for an unknown key or a root, and else the parent before the ancestors of the parent. So
-- the loop ends on every key of the catalog.
pub ancestors_of_lem : (key : String) → ancestors_of key ≡ parents (component_by_key key)
ancestors_of_lem key = elim (Option-cases (component_by_key key)) [
  | inl unknown ↦ rw unknown (unknown_key key unknown)
  | inr (c, known) ↦
      let (there, same) = known_component key c known in
      rw known (
        subst (λ k. ancestors_of k ≡ parents (some c)) (eq_of_== c.key key same)
          (eq_of_== (ancestors_of c.key) (parents (some c))
            (all_at (λ d. ancestors_of d.key == parents (some d)) components c chains there)))
]

visible_Bool :
    (only parent_only up_only parent_locked own_key own_parent up_rest up_parent : Bool)
    → (parent_locked ≡ false → up_rest ≡ up_parent)
    → (if only || (parent_only || up_only)
        then false
        else if false
        then true
        else own_key && ((own_parent || parent_locked) && up_rest))
      ≡ true
    → (if parent_only || up_only
        then false
        else if parent_locked
        then true
        else own_parent && up_parent)
      ≡ true
visible_Bool only parent_only up_only true own_key own_parent up_rest up_parent same h =
    ground arith
visible_Bool only parent_only up_only false own_key own_parent up_rest up_parent same h =
    let e : up_rest ≡ up_parent = same refl in ground arith

parent_visible :
    (settings : List UiComponentSetting) (user : User) (key parent : String) (c d : UiComponent)
    → ancestors_of key ≡ parent ∷ ancestors_of parent
    → component_by_key parent ≡ some d
    → c.locked ≡ false
    → component_visible settings c key user ≡ true
    → component_visible settings d parent user ≡ true
parent_visible settings user key parent c d up known free h =
    visible_Bool c.platform_only d.platform_only
      (any (λ a. is_platform_only (component_by_key a)) (ancestors_of parent)) d.locked
      (own_enabled_state settings key user.user_types)
      (own_enabled_state settings parent user.user_types)
      (all
        (λ a.
          own_enabled_state settings a user.user_types || locked_or c.locked (component_by_key a))
        (ancestors_of parent))
      _
      (λ unlocked.
        ap
          (λ b.
            all
              (λ a.
                own_enabled_state settings a user.user_types || locked_or b (component_by_key a))
              (ancestors_of parent))
          (free ∙ sym unlocked))
      (let h' = (rw (up, free, known) at h) in h')

-- A component with a parent, that is not locked and that a user sees, has a parent that the user
-- sees: a switch that hides a component hides what stands below it.
pub is_component_visible-parent :
    (settings : List UiComponentSetting) (user : User) (key parent : String) (c : UiComponent)
    → component_by_key key ≡ some c
    → c.parent ≡ some parent
    → c.locked ≡ false
    → is_component_visible settings key user ≡ true
    → is_component_visible settings parent user ≡ true
unfolding is_component_visible
is_component_visible-parent settings user key parent c known below free h =
    let up : ancestors_of key ≡ parent ∷ ancestors_of parent =
      (ancestors_of_lem key ∙ rw (known, below) refl) in
    elim (Bool-cases user.is_platform_admin) [
      | inl admin ↦ rw admin refl
      | inr plain ↦ rw plain (elim (Option-cases (component_by_key parent)) [
        | inl unknown ↦ rw unknown refl
        | inr (d, is_parent) ↦
            rw is_parent (
              parent_visible settings user key parent c d up is_parent free
                (rw (plain, known) at h))
      ])
    ]
