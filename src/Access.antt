-- ===== src/Access.antt =====
-- What a user may see and call: the catalog of app/core/ui_components.py and its resolution in
-- app/core/component_access.py.
pub mod Catalog
pub mod Visible
pub mod Guard
use dart_backend.Prelude.{
  ℕ, zero, suc, Bool, true, false, Option, none, some, List, [], ◌∷◌, ◌++◌, not, ◌&&◌, ◌||◌, map,
  any, all, keep, find, if◌then◌else◌, ◌==◌, nat_eq, list_eq, string_eq, or_else, is_some, length,
}
use dart_backend.Prelude.Text.{Text, txt, starts_with}
use dart_backend.Prelude.Results.{
  Exception, app_exception, permission_denied, Result, ok, raised, ◌>>=◌, ◌>>◌, raise_if,
}
use dart_backend.Access.Catalog.{UiComponent, components}
use Prim.Native.String.{String}

-- `COMPONENTS_BY_KEY.get(key)`: the keys of the catalog are distinct.
unfoldable pub component_by_key : String → Option UiComponent
component_by_key key = find (λ c. c.key == key) components

-- The loop of `ancestors_of`: a fuel for each component of the catalog.
unfoldable pub chain_from : ℕ → Option UiComponent → List String
chain_from fuel none = []
chain_from zero (some c) = []
chain_from (suc fuel) (some c) = elim c.parent [
  | none ↦ []
  | some p ↦ p ∷ chain_from fuel (component_by_key p)
]

unfoldable pub ancestors_of : String → List String
unfolding components
ancestors_of key = chain_from (length components) (component_by_key key)

-- path == prefix or path.startswith(prefix + "/")
abbrev pub claims : Text → List Text → Bool
claims path prefixes =
    any (λ prefix. (path == prefix) || starts_with path (prefix ++ txt "/")) prefixes

unfoldable pub components_for_api_path : Text → List UiComponent
components_for_api_path path =
    keep (λ c. claims path c.api_prefixes && not (claims path c.api_exempt_prefixes)) components

-- `UiComponentSetting`
pub record UiComponentSetting : Type 0 where
  pub component_key : String
  pub audience : String
  pub is_enabled : Bool

-- What the rules read of a `User`.
pub record User : Type 0 where
  pub is_platform_admin : Bool
  pub user_types : List String

abbrev pub everyone_state : List UiComponentSetting → Bool
everyone_state [] = true
everyone_state (row ∷ rows) =
    if row.audience == "everyone" then row.is_enabled else everyone_state rows

-- The state that the rows of one component give: `specific` are those for a type of the user.
abbrev pub state_of : List UiComponentSetting → List UiComponentSetting → Bool
state_of (s ∷ specific) rows = any (λ r. r.is_enabled) (s ∷ specific)
state_of [] rows = everyone_state rows

unfoldable pub own_enabled_state : List UiComponentSetting → String → List String → Bool
own_enabled_state settings key user_types =
    let rows = keep (λ s. s.component_key == key) settings in
    state_of (keep (λ s. any (λ t. t == s.audience) user_types) rows) rows

abbrev pub is_platform_only : Option UiComponent → Bool
is_platform_only none = false
is_platform_only (some c) = c.platform_only

-- `COMPONENTS_BY_KEY.get(ancestor, component).locked`
abbrev pub locked_or : Bool → Option UiComponent → Bool
locked_or own none = own
locked_or own (some c) = c.locked

abbrev pub component_visible : List UiComponentSetting → UiComponent → String → User → Bool
component_visible settings c key user =
    if c.platform_only || any (λ a. is_platform_only (component_by_key a)) (ancestors_of key)
    then false
    else if c.locked
    then true
    else own_enabled_state settings key user.user_types
      && all
          (λ a.
            own_enabled_state settings a user.user_types || locked_or c.locked (component_by_key a))
          (ancestors_of key)

-- An unknown key is visible.
abbrev pub visible_if_known : List UiComponentSetting → Option UiComponent → String → User → Bool
visible_if_known settings none key user = true
visible_if_known settings (some c) key user = component_visible settings c key user

unfoldable pub is_component_visible : List UiComponentSetting → String → User → Bool
is_component_visible settings key user =
    user.is_platform_admin || visible_if_known settings (component_by_key key) key user

unfoldable pub visible_component_keys : List UiComponentSetting → User → List String
visible_component_keys settings user =
    map (λ c. c.key) (keep (λ c. is_component_visible settings c.key user) components)

-- The class and code of the error for a component that is switched off; its message is made of the
-- label.
abbrev pub component_disabled : String → Exception
component_disabled label =
    app_exception permission_denied (txt label ++ txt " has been disabled by your administrator.")
      (txt "component_disabled")

unfoldable pub assert_owners_visible :
    List UiComponentSetting → User → List UiComponent → Result (Unit {0})
assert_owners_visible settings user [] = ok tt
assert_owners_visible settings user (c ∷ owners) = do
  raise_if (not (is_component_visible settings c.key user)) (component_disabled c.label)
  assert_owners_visible settings user owners

unfoldable pub assert_api_path_enabled : List UiComponentSetting → User → Text → Result (Unit {0})
assert_api_path_enabled settings user path =
    assert_owners_visible settings user (components_for_api_path path)

abbrev pub label_or : String → Option UiComponent → String
label_or key none = key
label_or key (some c) = c.label

-- The check of `require_component_enabled`.
unfoldable pub require_component_enabled :
    List UiComponentSetting → User → String → Result (Unit {0})
require_component_enabled settings user key =
    raise_if (not (is_component_visible settings key user))
      (component_disabled (label_or key (component_by_key key)))
