-- ===== src/Sync/Resolve.antt =====
-- app/services/sync_resolve.py
pub mod Signs
use dart_backend.Prelude.{
  ℕ, Bool, true, false, Option, none, some, List, [], ◌∷◌, ◌++◌, not, ◌&&◌, map, if◌then◌else◌,
  ◌==◌, nat_eq, list_eq, list_beq, nat_beq, or_else, any,
}
use dart_backend.Prelude.Dict.{Dict, get, put}
use dart_backend.Prelude.Text.{Text, txt, strip, join, is_empty}
use dart_backend.Prelude.Results.{Result, ok, raised, ◌>>=◌}
use dart_backend.Decimal.{Decimal, decimal_one, decimal_minus_one, multiply}
use dart_backend.Decimal.Parse.{parse_amount}
use dart_backend.Decimal.Format.{format_decimal}
use dart_backend.Bridge.{is_kickout_member, data_value}
use dart_backend.Sync.{SyncMapping, SyncedResolution}

unfoldable pub sync_source_value : Text → Dict Text Text → Dict Text Text → Text
sync_source_value dim_name cells resolved =
    let bridged = strip (or_else (get dim_name resolved) []) in
    if not (is_empty bridged) && not (is_kickout_member bridged)
    then bridged
    else data_value cells dim_name

-- `zip`, one list at a time: it ends with the shortest list.
unfoldable pub zip_cons : List Text → List (List Text) → List (List Text)
zip_cons [] rows = []
zip_cons (x ∷ xs) [] = []
zip_cons (x ∷ xs) (row ∷ rows) = (x ∷ row) ∷ zip_cons xs rows

unfoldable pub zip_lists : List (List Text) → List (List Text)
unfolding zip_cons
zip_lists [] = []
zip_lists (xs ∷ []) = map (λ x. x ∷ []) xs
zip_lists (xs ∷ ys ∷ rest) = zip_cons xs (zip_lists (ys ∷ rest))

-- The loop over the zipped parts: a blank part drops the combination.
unfoldable pub combine : Text → List (List Text) → List Text
combine delimiter [] = []
combine delimiter (parts ∷ rest) =
    let combos = combine delimiter rest in
    if any is_empty parts then combos else join delimiter parts ∷ combos

unfoldable pub zip_distinct_lists : List (List Text) → Text → List Text
zip_distinct_lists value_lists delimiter = combine delimiter (zip_lists value_lists)

-- The local variables of the loop of `apply_sync_mappings`.
pub record Applied : Type 0 where
  pub synced : Dict Text Text
  pub extra_sign : Decimal
  pub matched_flip : Bool

abbrev pub nothing_applied : Applied
nothing_applied = record { synced = []; extra_sign = decimal_one; matched_flip = false }

-- The guards of the loop: the mapping is for the row's app and for its values.
unfoldable pub mapping_applies : ℕ → Dict Text Text → Dict Text Text → SyncMapping → Bool
unfolding list_beq
mapping_applies app_number cells resolved m =
    let values = map (λ name. sync_source_value name cells resolved) m.dimension_names in
    if not (nat_beq m.app_number app_number)
    then false
    else if any is_empty values
    then false
    else join m.concat_delimiter values == m.source_sync

abbrev pub apply_mapping : Applied → SyncMapping → Result Applied
apply_mapping a m = do
  let synced = put (join (txt "-") m.dimension_names) m.target_sync a.synced
  sign ← (if m.flip_sign then multiply a.extra_sign decimal_minus_one else ok a.extra_sign)
  ok (record {
    synced = synced;
    extra_sign = sign;
    matched_flip = if m.flip_sign then true else a.matched_flip;
  })

unfoldable pub apply_mappings :
    ℕ → Dict Text Text → Dict Text Text → Applied → List SyncMapping → Result Applied
apply_mappings app_number cells resolved a [] = ok a
apply_mappings app_number cells resolved a (m ∷ ms) = do
  next ← (if mapping_applies app_number cells resolved m then apply_mapping a m else ok a)
  apply_mappings app_number cells resolved next ms

unfoldable pub apply_sync_mappings :
    ℕ
    → Dict Text Text
    → Dict Text Text
    → List SyncMapping
    → (amount sign_reversed_amount : Text) → Result SyncedResolution
apply_sync_mappings app_number cells resolved mappings amount sign_reversed_amount = do
  a ← apply_mappings app_number cells resolved nothing_applied mappings
  amount_text ← format_decimal (parse_amount (some amount))
  signed ← multiply (parse_amount (some sign_reversed_amount)) a.extra_sign
  signed_text ← format_decimal signed
  ok (record {
    synced = a.synced;
    amount = amount_text;
    sign_reversed_amount = signed_text;
    flip_sign = a.matched_flip;
  })
