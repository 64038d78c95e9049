-- ===== src/Bridge/Aliases/Names.antt =====
-- The names that `load_dimension_aliases` (app/services/bridge_resolve.py) gives.
use dart_backend.Prelude.{
  ℕ, ◌≡◌, refl, sym, subst, inl, inr, false, ◌&&◌, not, Option, none, some, List, [], ◌∷◌,
  Bool-cases, Option-cases, arith, In, some_inj, nat_eq, list_eq, pair_eq, ◌==◌, or_else,
}
use dart_backend.Prelude.Int.{int_of}
use dart_backend.Prelude.Dict.{Dict, get, put, get-put}
use dart_backend.Prelude.Text.{Text, strip, lower, is_empty}
use dart_backend.Prelude.Results.{ok, >>=-eq-ok, ok_inj}
use dart_backend.Bridge.{Aliases, is_amount_dimension}
use dart_backend.Import.Run.{Dimension, DimensionMapping, ImportRun}
use dart_backend.Bridge.Aliases.{
  AppHeader, Storage, name_mappings, name_dimensions, header_at, alias_header, alias_location,
  alias_mappings, alias_dimensions, load_headers, load_dimension_aliases,
}

-- The name of a dimension that is bridged.
abbrev pub Names : List Dimension → Text → Type 0
Names dims v = (d : Dimension) × In d dims × (d.name ≡ v) × (is_amount_dimension v ≡ false)

-- Every alias is for the name of a bridged dimension.
Sound : List Dimension → Aliases → Type 0
Sound dims aliases = (k : ℕ × Text) (v : Text) → get k aliases ≡ some v → Names dims v

put-Sound :
    (dims : List Dimension) (k : ℕ × Text) (name : Text) (aliases : Aliases)
    → Names dims name
    → Sound dims aliases
    → Sound dims (put k name aliases)
unfolding Sound
put-Sound dims k name aliases named sound j v h = elim (Bool-cases (k == j)) [
  | inl same ↦
      subst (Names dims)
        (some_inj name v
          (let h' : some name ≡ some v = (rw (get-put k j name aliases, same) at h) in h'))
        named
  | inr other ↦ sound j v (let h' = (rw (get-put k j name aliases, other) at h) in h')
]

name_mappings-Sound :
    (dims : List Dimension) (name : Text) (mappings : List DimensionMapping) (aliases : Aliases)
    → Names dims name
    → Sound dims aliases
    → Sound dims (name_mappings name mappings aliases)
unfolding name_mappings
name_mappings-Sound dims name [] aliases named sound = sound
name_mappings-Sound dims name (m ∷ mappings) aliases named sound =
    name_mappings-Sound dims name mappings _ named
      (put-Sound dims (m.app_number, lower (strip name)) name aliases named sound)

alias_header-Sound :
    (dims : List Dimension) (name : Text) (app : ℕ) (o : Option Text) (aliases : Aliases)
    → Names dims name
    → Sound dims aliases
    → Sound dims (alias_header name app o aliases)
alias_header-Sound dims name app none aliases named sound = sound
alias_header-Sound dims name app (some raw) aliases named sound =
    elim (Bool-cases (is_empty (strip raw))) [
      | inl blank ↦ rw blank sound
      | inr full ↦ rw full (put-Sound dims (app, lower (strip raw)) name aliases named sound)
    ]

alias_location-Sound :
    (dims : List Dimension) (headers : Dict ℕ (List Text)) (name : Text) (app : ℕ) (location : Text)
    (aliases : Aliases)
    → Names dims name
    → Sound dims aliases
    → Sound dims (alias_location headers name app location aliases)
alias_location-Sound dims headers name app location aliases named sound =
    elim (Option-cases (int_of location)) [
      | inl no_number ↦
          rw (alias_location, no_number)
            (put-Sound dims (app, lower location) name aliases named sound)
      | inr (index, number) ↦
          rw (alias_location, number)
            (alias_header-Sound dims name app (header_at (get app headers) index) aliases named
              sound)
    ]

alias_mappings-Sound :
    (dims : List Dimension) (headers : Dict ℕ (List Text)) (name : Text)
    (mappings : List DimensionMapping) (aliases : Aliases)
    → Names dims name
    → Sound dims aliases
    → Sound dims (alias_mappings headers name mappings aliases)
unfolding alias_mappings
alias_mappings-Sound dims headers name [] aliases named sound = sound
alias_mappings-Sound dims headers name (m ∷ mappings) aliases named sound =
    let location = or_else m.column_location [] in
    alias_mappings-Sound dims headers name mappings _ named
      (elim (Bool-cases (m.in_file && not (is_empty location))) [
        | inl located ↦ rw located (
            alias_location-Sound dims headers name m.app_number (strip location) aliases named
              sound)
        | inr skipped ↦ rw skipped sound
      ])

-- Both loops over the dimensions, from a place in the list.
module _ (dims : List Dimension) where
  Within : List Dimension → Type 0
  Within rest = (d : Dimension) → In d rest → In d dims

  name_dimensions-Sound :
      (rest : List Dimension) (aliases : Aliases)
      → Within rest
      → Sound dims aliases
      → Sound dims (name_dimensions rest aliases)
  unfolding name_dimensions Within
  name_dimensions-Sound [] aliases within sound = sound
  name_dimensions-Sound (d ∷ rest) aliases within sound =
      name_dimensions-Sound rest _ (λ x i. within x (inr i))
        (elim (Bool-cases (is_amount_dimension d.name)) [
          | inl amount ↦ rw amount sound
          | inr bridged ↦ rw bridged (
              name_mappings-Sound dims d.name d.mappings aliases
                (d, within d (inl refl), refl, bridged) sound)
        ])

  alias_dimensions-Sound :
      (headers : Dict ℕ (List Text)) (rest : List Dimension) (aliases : Aliases)
      → Within rest
      → Sound dims aliases
      → Sound dims (alias_dimensions headers rest aliases)
  unfolding alias_dimensions Within
  alias_dimensions-Sound headers [] aliases within sound = sound
  alias_dimensions-Sound headers (d ∷ rest) aliases within sound =
      alias_dimensions-Sound headers rest _ (λ x i. within x (inr i))
        (elim (Bool-cases (is_amount_dimension d.name)) [
          | inl amount ↦ rw amount sound
          | inr bridged ↦ rw bridged (
              alias_mappings-Sound dims headers d.name d.mappings aliases
                (d, within d (inl refl), refl, bridged) sound)
        ])

-- Whatever the files of the latest imports hold, an alias that is loaded stands for the name of a
-- dimension of the recon, and never for AMOUNT.
pub load_dimension_aliases-Names :
    (storage : Storage) (dims : List Dimension) (apps : List AppHeader) (runs : List ImportRun)
    (aliases : Aliases) (k : ℕ × Text) (v : Text)
    → load_dimension_aliases storage dims apps runs ≡ ok aliases
    → get k aliases ≡ some v
    → Names dims v
unfolding load_dimension_aliases Within Sound get
load_dimension_aliases-Names storage dims apps runs aliases k v h found =
    let (headers, read, h1) = >>=-eq-ok (load_headers storage apps [] runs []) _ h in
    let sound =
      alias_dimensions-Sound dims headers dims (name_dimensions dims []) (λ d i. i)
        (name_dimensions-Sound dims dims [] (λ d i. i) (λ j w h. absurd (ground arith))) in
    sound k v (subst (λ a. get k a ≡ some v) (sym (ok_inj _ aliases h1)) found)
