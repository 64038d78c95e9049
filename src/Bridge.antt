-- ===== src/Bridge.antt =====
-- Bridge Members resolution: app/services/bridge_resolve.py, over the rows of app/models/bridge.py,
-- app/models/import_run.py and app/models/dimension.py that it reads.
pub mod Lookup
pub mod Resolve
pub mod Kickouts
pub mod Run
pub mod Members
pub mod Aliases
use dart_backend.Prelude.{
  ℕ, Bool, true, false, Option, none, some, List, [], ◌∷◌, ◌&&◌, ◌||◌, not, pair_eq, if◌then◌else◌,
  ◌==◌, nat_eq, list_eq, list_beq, or_else,
}
use dart_backend.Prelude.Dict.{Dict, get}
use dart_backend.Prelude.Text.{Text, txt, strip, lower, upper, is_empty}

abbrev pub kickout_sentinel : Text
kickout_sentinel = txt "kickout"

pub record BridgeMapping : Type 0 where
  pub app_number : ℕ
  pub dimension_name : Text
  pub source_member : Text
  pub bridge_member : Text
  pub flip_sign : Bool
  pub dim_comment : Option Text
  pub bridge_comment : Option Text
  pub je_comment : Option Text
  pub is_invalid : Bool

-- `data` is the JSON object of the row: dimension name to cell.
pub record ImportedRow : Type 0 where
  pub id : ℕ
  pub recon_id : ℕ
  pub app_number : ℕ
  pub row_number : ℕ
  pub cells : Dict Text Text
  pub kickout : Bool
  pub deleted_flag : Bool

-- (app number, dimension name, source member), the last two folded.
abbrev pub MappingKey : Type 0
MappingKey = ℕ × (Text × Text)

abbrev pub Lookup : Type 0
Lookup = Dict MappingKey BridgeMapping

-- (app number, file or common name in lower case) to the common name
abbrev pub Aliases : Type 0
Aliases = Dict (ℕ × Text) Text

unfoldable pub is_amount_dimension : Text → Bool
unfolding strip upper list_beq
is_amount_dimension name = upper (strip name) == txt "AMOUNT"

-- `value` is never None where the program calls it.
unfoldable pub is_kickout_member : Text → Bool
unfolding strip lower list_beq
is_kickout_member value = not (is_empty value) && lower (strip value) == kickout_sentinel

unfoldable pub mapping_key : ℕ → Text → Text → MappingKey
unfolding strip lower
mapping_key app_number dimension_name source_member =
    (app_number, (lower (strip dimension_name), lower (strip source_member)))

-- The loop of `data_value`: the first key that matches when folded.
unfoldable pub folded_value : Text → Dict Text Text → Text
unfolding strip lower list_beq
folded_value target [] = []
folded_value target ((key, value) ∷ rest) =
    if lower (strip key) == target then strip value else folded_value target rest

unfoldable pub data_value : Dict Text Text → Text → Text
unfolding folded_value get
data_value cells dim_name = elim (get dim_name cells) [
  | some value ↦ strip value
  | none ↦ folded_value (lower (strip dim_name)) cells
]

unfoldable pub truthy_flag : Option Text → Bool
unfolding strip lower list_beq
truthy_flag raw =
    let flag = lower (strip (or_else raw [])) in
    flag == txt "yes" || flag == txt "true" || flag == txt "1" || flag == txt "y"

unfoldable pub canonical_dimension_name : Text → ℕ → Aliases → Text
unfolding strip lower get
canonical_dimension_name raw app_number aliases =
    let stripped = strip raw in or_else (get (app_number, lower stripped) aliases) stripped
