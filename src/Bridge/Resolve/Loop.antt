-- ===== src/Bridge/Resolve/Loop.antt =====
-- The loop of `resolve_imported_row` against a description of each dimension by itself.
use mathlib.Core.List.{append_assoc, append-nil}
use dart_backend.Prelude.{
  ℕ, ◌≡◌, refl, ap, ◌∙◌, sym, inl, inr, Bool, true, false, Option, none, some, List, [], ◌∷◌, ◌++◌,
  map, ◌||◌, arith, if◌then◌else◌, list_eq, nat_eq, or_else, any, ◌==◌, Bool-cases, eq_of_==,
}
use dart_backend.Prelude.Dict.{Dict, get, put, get-put}
use dart_backend.Prelude.Text.{Text}
use dart_backend.Prelude.Results.{ok}
use dart_backend.Decimal.{xor}
use dart_backend.Decimal.Rounding.{unit, multiply-minus_one}
use dart_backend.Bridge.{
  BridgeMapping, Lookup, kickout_sentinel, is_amount_dimension, is_kickout_member, data_value,
}
use dart_backend.Bridge.Lookup.{bridged_dimensions}
use dart_backend.Bridge.Resolve.{
  Progress, find_mapping, kick_out, use_mapping, record_dimension, resolve_dimensions,
}

-- What a found mapping, or none, means for its dimension.
abbrev pub is_unresolved : Option BridgeMapping → Bool
is_unresolved none = true
is_unresolved (some m) = is_kickout_member m.bridge_member

abbrev pub bridge_of : Option BridgeMapping → Text
bridge_of none = kickout_sentinel
bridge_of (some m) = if is_kickout_member m.bridge_member then kickout_sentinel else m.bridge_member

abbrev pub flips : Option BridgeMapping → Bool
flips none = false
flips (some m) = if is_kickout_member m.bridge_member then false else m.flip_sign

abbrev pub comment_of : (BridgeMapping → Option Text) → Option BridgeMapping → Text
comment_of field none = []
comment_of field (some m) = if is_kickout_member m.bridge_member then [] else or_else (field m) []

-- The progress after one dimension, in one record for both branches.
abbrev advance : Progress → Text → Option BridgeMapping → Bool → Progress
advance p d o negative = record {
  resolved = put d (bridge_of o) p.resolved;
  kickout = p.kickout || is_unresolved o;
  sign = unit (xor negative (flips o));
  dim_comments = p.dim_comments ++ comment_of (λ m. m.dim_comment) o ∷ [];
  bridge_comments = p.bridge_comments ++ comment_of (λ m. m.bridge_comment) o ∷ [];
  je_comments = p.je_comments ++ comment_of (λ m. m.je_comment) o ∷ [];
}

record_dimension-eq :
    (p : Progress) (d : Text) (o : Option BridgeMapping) (negative : Bool)
    → p.sign ≡ unit negative
    → record_dimension p d o ≡ ok (advance p d o negative)
unfolding record_dimension kick_out use_mapping
record_dimension-eq p d none negative h = ground arith
record_dimension-eq p d (some m) negative h = ground (arith, multiply-minus_one negative)

if_same {ℓ} : {A : Type ℓ} (b : Bool) (x y : A) → y ≡ x → (if b then x else y) ≡ x
if_same true x y e = refl
if_same false x y e = e

or_assoc : (a b c : Bool) → ((a || b) || c) ≡ (a || (b || c))
or_assoc true b c = refl
or_assoc false b c = refl

module _ (app_number : ℕ) (cells : Dict Text Text) (lookup : Lookup) where
  -- The mapping that the row's cell has for a dimension, if it has one.
  abbrev pub mapping_for : Text → Option BridgeMapping
  mapping_for d = find_mapping lookup app_number d (data_value cells d)

  -- Whether an odd number of the dimensions' mappings flips the sign.
  abbrev pub parity : Bool → List Text → Bool
  parity negative [] = negative
  parity negative (d ∷ ds) = parity (xor negative (flips (mapping_for d))) ds

  abbrev pub comments : (BridgeMapping → Option Text) → List Text → List Text
  comments field ds = map (λ d. comment_of field (mapping_for d)) ds

  -- `q` is `p` after the dimensions `ds`, each by itself.
  pub record Describes (p : Progress) (negative : Bool) (ds : List Text) (q : Progress)
      : Type 0 where
    pub kickout : q.kickout ≡ (p.kickout || any (λ d. is_unresolved (mapping_for d)) ds)
    pub sign : q.sign ≡ unit (parity negative ds)
    pub resolved :
        (k : Text)
        → get k q.resolved
          ≡ (if any (λ d. d == k) ds then some (bridge_of (mapping_for k)) else get k p.resolved)
    pub dim_comments : q.dim_comments ≡ p.dim_comments ++ comments (λ m. m.dim_comment) ds
    pub bridge_comments :
        q.bridge_comments ≡ p.bridge_comments ++ comments (λ m. m.bridge_comment) ds
    pub je_comments : q.je_comments ≡ p.je_comments ++ comments (λ m. m.je_comment) ds

  abbrev pub Runs : Progress → Bool → List Text → Type 0
  Runs p negative ds =
      (q : Progress) × (resolve_dimensions app_number cells lookup ds p ≡ ok q)
      × Describes p negative (bridged_dimensions ds) q

  Describes-nil :
      (p : Progress) (negative : Bool) → p.sign ≡ unit negative → Describes p negative [] p
  Describes-nil p negative h = record {
    kickout = ground arith;
    sign = h;
    resolved = λ k. refl;
    dim_comments = sym (append-nil p.dim_comments);
    bridge_comments = sym (append-nil p.bridge_comments);
    je_comments = sym (append-nil p.je_comments);
  }

  resolved-advance :
      (d k : Text) (ds : List Text) (m : Dict Text Text)
      → (if any (λ j. j == k) ds
          then some (bridge_of (mapping_for k))
          else get k (put d (bridge_of (mapping_for d)) m))
        ≡ (if d == k || any (λ j. j == k) ds then some (bridge_of (mapping_for k)) else get k m)
  resolved-advance d k ds m =
      rw (get-put d k (bridge_of (mapping_for d)) m) (elim (Bool-cases (d == k)) [
        | inl e ↦ rw e (
            if_same (any (λ j. j == k) ds) (some (bridge_of (mapping_for k)))
              (some (bridge_of (mapping_for d)))
              (ap (λ j. some (bridge_of (mapping_for j))) (eq_of_== d k e)))
        | inr e ↦ rw e
      ])

  Describes-cons :
      (p : Progress) (negative : Bool) (d : Text) (ds : List Text) (q : Progress)
      → Describes (advance p d (mapping_for d) negative) (xor negative (flips (mapping_for d))) ds q
      → Describes p negative (d ∷ ds) q
  Describes-cons p negative d ds q h = record {
    kickout = h.kickout ∙ or_assoc p.kickout _ _;
    sign = h.sign;
    resolved = λ k. h.resolved k ∙ resolved-advance d k ds p.resolved;
    dim_comments = h.dim_comments ∙ append_assoc p.dim_comments _ _;
    bridge_comments = h.bridge_comments ∙ append_assoc p.bridge_comments _ _;
    je_comments = h.je_comments ∙ append_assoc p.je_comments _ _;
  }

  resolve_dimensions-cons :
      (d : Text) (ds : List Text) (p : Progress) (negative : Bool)
      → is_amount_dimension d ≡ false
      → p.sign ≡ unit negative
      → resolve_dimensions app_number cells lookup (d ∷ ds) p
        ≡ resolve_dimensions app_number cells lookup ds (advance p d (mapping_for d) negative)
  unfolding resolve_dimensions
  resolve_dimensions-cons d ds p negative other h =
      rw other (rw (record_dimension-eq p d (mapping_for d) negative h))

  resolve_dimensions-amount :
      (d : Text) (ds : List Text) (p : Progress)
      → is_amount_dimension d ≡ true
      → resolve_dimensions app_number cells lookup (d ∷ ds) p
        ≡ resolve_dimensions app_number cells lookup ds p
  unfolding resolve_dimensions
  resolve_dimensions-amount d ds p amount = rw amount

  -- The loop returns, and its variables are what the dimensions say one by one.
  pub runs :
      (ds : List Text) (p : Progress) (negative : Bool)
      → p.sign ≡ unit negative
      → Runs p negative ds
  unfolding bridged_dimensions
  runs [] p negative h = (p, unfold resolve_dimensions in refl, Describes-nil p negative h)
  runs (d ∷ ds) p negative h = elim (Bool-cases (is_amount_dimension d)) [
    | inl amount ↦
        let (q, e, desc) = runs ds p negative h in
        (q, resolve_dimensions-amount d ds p amount ∙ e, rw amount desc)
    | inr other ↦
        let next = xor negative (flips (mapping_for d)) in
        let (q, e, desc) = runs ds (advance p d (mapping_for d) negative) next refl in
        (
          q,
          resolve_dimensions-cons d ds p negative other h ∙ e,
          rw other (Describes-cons p negative d (bridged_dimensions ds) q desc),
        )
  ]
