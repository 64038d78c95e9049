-- ===== src/Sync/Resolve/Signs.antt =====
-- `apply_sync_mappings`: which mappings apply, what they write and what they do to the sign.
use dart_backend.Prelude.{
  ℕ, ◌<◌, ◌≡◌, refl, ap, ◌∙◌, Bool, true, false, Option, none, some, List, [], ◌∷◌, ◌||◌, arith,
  if◌then◌else◌, list_eq, nat_eq, ◌==◌, any, keep, Bool-cases, inl, inr,
}
use dart_backend.Prelude.Dict.{Dict, get, put, get-put, get-nil}
use dart_backend.Prelude.Text.{Text, txt, join}
use dart_backend.Prelude.Int.{negsuc}
use dart_backend.Prelude.Results.{ok}
use dart_backend.Decimal.{Decimal, finite, xor, multiply, precision_limit}
use dart_backend.Decimal.Parse.{parse_amount}
use dart_backend.Decimal.Format.{format_decimal, cents_text}
use dart_backend.Decimal.Format.Roundtrip.{parse_amount-cents_text, format_cents}
use dart_backend.Decimal.Rounding.{unit, multiply-unit, multiply-minus_one}
use dart_backend.Sync.{SyncMapping, SyncedResolution}
use dart_backend.Sync.Resolve.{
  Applied, nothing_applied, mapping_applies, apply_mapping, apply_mappings, apply_sync_mappings,
}

-- The sign after the mappings that apply.
abbrev pub sign_after : Bool → List SyncMapping → Bool
sign_after negative [] = negative
sign_after negative (m ∷ ms) = sign_after (xor negative m.flip_sign) ms

-- The target that the last applying mapping of a group of dimensions gives.
abbrev pub target_after : Text → Option Text → List SyncMapping → Option Text
target_after k found [] = found
target_after k found (m ∷ ms) =
    target_after k (if join (txt "-") m.dimension_names == k then some m.target_sync else found) ms

module _ (app_number : ℕ) (cells resolved : Dict Text Text) where
  abbrev pub applying : List SyncMapping → List SyncMapping
  applying ms = keep (mapping_applies app_number cells resolved) ms

  pub record IsAfter (a : Applied) (negative : Bool) (ms : List SyncMapping) (q : Applied)
      : Type 0 where
    pub sign : q.extra_sign ≡ unit (sign_after negative ms)
    pub flipped : q.matched_flip ≡ (a.matched_flip || any (λ m. m.flip_sign) ms)
    pub synced : (k : Text) → get k q.synced ≡ target_after k (get k a.synced) ms

  apply_mapping-eq :
      (a : Applied) (m : SyncMapping) (negative : Bool)
      → a.extra_sign ≡ unit negative
      → apply_mapping a m
        ≡ ok (record {
          synced = put (join (txt "-") m.dimension_names) m.target_sync a.synced;
          extra_sign = unit (xor negative m.flip_sign);
          matched_flip = if m.flip_sign then true else a.matched_flip;
        })
  apply_mapping-eq a m negative h = ground (arith, multiply-minus_one negative)

  abbrev AfterAll : Applied → Bool → List SyncMapping → Type 0
  AfterAll a negative ms =
      (q : Applied) × (apply_mappings app_number cells resolved a ms ≡ ok q)
      × IsAfter a negative (applying ms) q

  skip_mapping :
      (a : Applied) (m : SyncMapping) (ms : List SyncMapping)
      → mapping_applies app_number cells resolved m ≡ false
      → apply_mappings app_number cells resolved a (m ∷ ms)
        ≡ apply_mappings app_number cells resolved a ms
  unfolding apply_mappings
  skip_mapping a m ms other = rw other

  use_mapping :
      (a : Applied) (m : SyncMapping) (ms : List SyncMapping) (next : Applied)
      → mapping_applies app_number cells resolved m ≡ true
      → apply_mapping a m ≡ ok next
      → apply_mappings app_number cells resolved a (m ∷ ms)
        ≡ apply_mappings app_number cells resolved next ms
  unfolding apply_mappings
  use_mapping a m ms next mine e = rw mine (rw e)

  or_if : (b c d : Bool) → ((if b then true else c) || d) ≡ (c || (b || d))
  or_if true true d = refl
  or_if true false d = refl
  or_if false c d = refl

  pub after_all :
      (ms : List SyncMapping) (a : Applied) (negative : Bool)
      → a.extra_sign ≡ unit negative
      → AfterAll a negative ms
  after_all [] a negative h = (
    a,
    unfold apply_mappings in refl,
    record { sign = h; flipped = ground arith; synced = λ k. refl },
  )
  after_all (m ∷ ms) a negative h =
      elim (Bool-cases (mapping_applies app_number cells resolved m)) [
        | inl mine ↦
            let (q, e, after) = after_all ms _ (xor negative m.flip_sign) refl in
            (
              q,
              use_mapping a m ms _ mine (apply_mapping-eq a m negative h) ∙ e,
              rw mine (record {
                sign = after.sign;
                flipped = after.flipped ∙ or_if m.flip_sign a.matched_flip _;
                synced = λ k.
                    after.synced k
                    ∙ ap (λ o. target_after k o (applying ms))
                        (get-put (join (txt "-") m.dimension_names) k m.target_sync a.synced);
              }),
            )
        | inr other ↦
            let (q, e, after) = after_all ms a negative h in
            (q, skip_mapping a m ms other ∙ e, rw other after)
      ]

  pub record IsSynced (ms : List SyncMapping) (s t : Bool) (c : ℕ) (r : SyncedResolution)
      : Type 0 where
    pub synced : (k : Text) → get k r.synced ≡ target_after k none (applying ms)
    pub amount : r.amount ≡ cents_text s c
    pub sign_reversed_amount :
        r.sign_reversed_amount ≡ cents_text (xor t (sign_after false (applying ms))) c
    pub flip_sign : r.flip_sign ≡ any (λ m. m.flip_sign) (applying ms)

  parts :
      (ms : List SyncMapping) (a b x y : Text) (q : Applied) (d : Decimal)
      → apply_mappings app_number cells resolved nothing_applied ms ≡ ok q
      → format_decimal (parse_amount (some a)) ≡ ok x
      → multiply (parse_amount (some b)) q.extra_sign ≡ ok d
      → format_decimal d ≡ ok y
      → apply_sync_mappings app_number cells resolved ms a b
        ≡ ok (record {
          synced = q.synced;
          amount = x;
          sign_reversed_amount = y;
          flip_sign = q.matched_flip;
        })
  unfolding apply_sync_mappings
  parts ms a b x y q d loop first product second = rw loop (rw first (rw product (rw second)))

  -- Given the two texts that the bridge writes for an amount, the row is transformed: each group of
  -- dimensions has the target of the last applying mapping, the amount stays as it is, the signed
  -- amount is negated exactly if an odd number of the applying mappings flips, and `flip_sign` says
  -- whether any of them does.
  pub apply_sync_mappings_lem :
      (ms : List SyncMapping) (s t : Bool) (c : ℕ)
      → c < precision_limit
      → (r : SyncedResolution) × (apply_sync_mappings app_number cells resolved ms
            (cents_text s c)
            (cents_text t c)
          ≡ ok r)
        × IsSynced ms s t c r
  apply_sync_mappings_lem ms s t c small =
      let (q, loop, after) = after_all ms nothing_applied false refl in
      let flip = sign_after false (applying ms) in
      (
        _,
        parts ms (cents_text s c) (cents_text t c) (cents_text s c) (cents_text (xor t flip) c) q
            (finite (xor t flip) c (negsuc 1)) loop
            (rw (parse_amount-cents_text s c) (format_cents s c small))
            (rw (parse_amount-cents_text t c)
              (rw (after.sign) (multiply-unit t flip c (negsuc 1) small)))
            (format_cents (xor t flip) c small),
        record {
          synced = λ k. after.synced k ∙ ap (λ o. target_after k o (applying ms)) (get-nil k);
          amount = refl;
          sign_reversed_amount = refl;
          flip_sign = after.flipped;
        },
      )
