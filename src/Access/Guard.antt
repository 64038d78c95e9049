-- ===== src/Access/Guard.antt =====
-- The guard of a request path: `assert_api_path_enabled` of app/core/component_access.py.
use dart_backend.Prelude.{◌≡◌, refl, true, false, List, [], ◌∷◌, All, In, Bool-cases, inl, inr}
use dart_backend.Prelude.Text.{Text}
use dart_backend.Prelude.Results.{Result, ok, raised}
use dart_backend.Access.Catalog.{UiComponent}
use dart_backend.Access.{
  is_component_visible, User, UiComponentSetting, components_for_api_path, assert_owners_visible,
  assert_api_path_enabled, component_disabled,
}

module _ (settings : List UiComponentSetting) (user : User) where
  -- Every owner is seen, or the error is that of an owner that is not.
  abbrev pub Guarded : List UiComponent → Result (Unit {0}) → Type 0
  Guarded owners (ok done) = All (λ c. is_component_visible settings c.key user ≡ true) owners
  Guarded owners (raised e) =
      (c : UiComponent) × In c owners
      × (is_component_visible settings c.key user ≡ false)
      × (e ≡ component_disabled c.label)

  behind_visible :
      (c : UiComponent) (owners : List UiComponent) (rest : Result (Unit {0}))
      → is_component_visible settings c.key user ≡ true
      → Guarded owners rest
      → Guarded (c ∷ owners) rest
  behind_visible c owners (ok done) seen each = (seen, each)
  behind_visible c owners (raised e) seen (d, there, hidden, is_error) =
      (d, inr there, hidden, is_error)

  assert_owners_visible-Guarded :
      (owners : List UiComponent) → Guarded owners (assert_owners_visible settings user owners)
  unfolding assert_owners_visible
  assert_owners_visible-Guarded [] = tt
  assert_owners_visible-Guarded (c ∷ owners) =
      elim (Bool-cases (is_component_visible settings c.key user)) [
        | inl seen ↦ rw seen (
            behind_visible c owners (assert_owners_visible settings user owners) seen
              (assert_owners_visible-Guarded owners))
        | inr hidden ↦ rw hidden (c, inl refl, hidden, refl)
      ]

  -- A request for a path passes only when the user sees every component that claims the path, and
  -- else raises the permission error of one that claims it and that the user does not see.
  pub assert_api_path_enabled_lem :
      (path : Text)
      → Guarded (components_for_api_path path) (assert_api_path_enabled settings user path)
  unfolding assert_api_path_enabled
  assert_api_path_enabled_lem path = assert_owners_visible-Guarded (components_for_api_path path)
