-- ===== src/Bridge/Kickouts/Adding.antt =====
-- The inner function `add` of `discover_kickout_members`: what it adds, and how often.
use dart_backend.Prelude.{
  ℕ, ◌+◌, ◌≡◌, refl, subst, inl, inr, ◌⊎◌, Bool, true, false, Option, List, [], ◌∷◌, ◌++◌, arith,
  if◌then◌else◌, list_eq, nat_eq, pair_eq, ◌==◌, ==_refl, eq_of_==, Bool-cases, if_ladder3, In,
  In-snoc, any,
}
use dart_backend.Prelude.Dict.{Dict}
use dart_backend.Prelude.Text.{Text, is_empty}
use dart_backend.Prelude.Sorting.{insert_sorted, sort_by}
use dart_backend.Bridge.{MappingKey}
use dart_backend.Bridge.Kickouts.{
  KickoutMember, Found, kickout_key, filtered_out, member, add_kickout, member_leb,
}

abbrev pub key_of : KickoutMember → MappingKey
key_of k = (k.app_number, (k.dimension_name, k.source_member))

-- How often a key is reported.
abbrev pub occurrences : MappingKey → List KickoutMember → ℕ
occurrences key [] = 0
occurrences key (k ∷ ks) = (if key_of k == key then 1 else 0) + occurrences key ks

occurrences-append :
    (key : MappingKey) (xs ys : List KickoutMember)
    → occurrences key (xs ++ ys) ≡ occurrences key xs + occurrences key ys
occurrences-append key [] ys = omega arith
occurrences-append key (x ∷ xs) ys = omega (arith, occurrences-append key xs ys)

occurrences-insert :
    (key : MappingKey) (x : KickoutMember) (xs : List KickoutMember)
    → occurrences key (insert_sorted member_leb x xs) ≡ occurrences key (x ∷ xs)
unfolding insert_sorted
occurrences-insert key x [] = refl
occurrences-insert key x (y ∷ ys) = elim (Bool-cases (member_leb x y)) [
  | inl before ↦ rw before
  | inr behind ↦ rw behind (omega (arith, occurrences-insert key x ys))
]

pub occurrences-sort_by :
    (key : MappingKey) (xs : List KickoutMember)
    → occurrences key (sort_by member_leb xs) ≡ occurrences key xs
unfolding sort_by
occurrences-sort_by key [] = refl
occurrences-sort_by key (x ∷ xs) =
    omega (arith, occurrences-insert key x (sort_by member_leb xs), occurrences-sort_by key xs)

abbrev pub is_seen : MappingKey → Found → Bool
is_seen key f = any (λ k. k == key) f.seen

-- A seen key is reported once, any other never.
abbrev pub Counted : Found → Type 0
Counted f = (key : MappingKey) → occurrences key f.out ≡ (if is_seen key f then 1 else 0)

module _ (app_names : Dict ℕ Text) (only : Option ℕ) where
  abbrev fresh : Found → ℕ → Text → Text → Text → Found
  fresh f app dimension source bridge = record {
    seen = kickout_key app dimension source ∷ f.seen;
    out = f.out ++ member app_names app dimension source bridge ∷ [];
  }

  -- Either nothing is added, or a new key with its member is.
  add_kickout-elim :
      (P : Found → Type 0) (f : Found) (app : ℕ) (dimension source bridge : Text)
      → P f
      → (is_empty source ≡ false
          → filtered_out only app ≡ false
          → is_seen (kickout_key app dimension source) f ≡ false
          → P (fresh f app dimension source bridge))
      → P (add_kickout app_names only f app dimension source bridge)
  unfolding add_kickout
  add_kickout-elim P f app dimension source bridge =
      if_ladder3 P _ _ _ f (fresh f app dimension source bridge)

  fresh-Counted :
      (f : Found) (app : ℕ) (dimension source bridge : Text)
      → Counted f
      → is_seen (kickout_key app dimension source) f ≡ false
      → Counted (fresh f app dimension source bridge)
  fresh-Counted f app dimension source bridge h new key =
      rw (occurrences-append key f.out (member app_names app dimension source bridge ∷ [])) (
        rw (h key) (elim (Bool-cases (kickout_key app dimension source == key)) [
          | inl same ↦
              let old : is_seen key f ≡ false =
                subst (λ k. is_seen k f ≡ false) (eq_of_== _ _ same) new in
              rw (same, old)
          | inr other ↦ rw other (omega arith)
        ]))

  pub add_kickout-Counted :
      (f : Found) (app : ℕ) (dimension source bridge : Text)
      → Counted f
      → Counted (add_kickout app_names only f app dimension source bridge)
  add_kickout-Counted f app dimension source bridge h =
      add_kickout-elim Counted f app dimension source bridge h
        λ named passes new. fresh-Counted f app dimension source bridge h new

  pub add_kickout-seen :
      (f : Found) (app : ℕ) (dimension source bridge : Text) (key : MappingKey)
      → is_seen key f ≡ true
      → is_seen key (add_kickout app_names only f app dimension source bridge) ≡ true
  unfolding add_kickout
  add_kickout-seen f app dimension source bridge key h = ground arith

  pub add_kickout-adds :
      (f : Found) (app : ℕ) (dimension source bridge : Text)
      → is_empty source ≡ false
      → filtered_out only app ≡ false
      → is_seen
          (kickout_key app dimension source)
          (add_kickout app_names only f app dimension source bridge)
        ≡ true
  unfolding add_kickout
  add_kickout-adds f app dimension source bridge named passes =
      ground (arith, ==_refl (kickout_key app dimension source))

  -- A member that is reported was reported before, or is the one that is added.
  pub add_kickout-In :
      (f : Found) (app : ℕ) (dimension source bridge : Text) (k : KickoutMember)
      → In k (add_kickout app_names only f app dimension source bridge).out
      → In k f.out
        ⊎ ((is_empty source ≡ false)
            × (filtered_out only app ≡ false)
            × (member app_names app dimension source bridge ≡ k))
  add_kickout-In f app dimension source bridge k =
      add_kickout-elim
        (λ g.
          In k g.out
          → In k f.out
            ⊎ ((is_empty source ≡ false)
                × (filtered_out only app ≡ false)
                × (member app_names app dimension source bridge ≡ k)))
        f app dimension source bridge (λ i. inl i)
        λ named passes new i. elim (In-snoc k _ f.out i) [
          | inl old ↦ inl old
          | inr e ↦ inr (named, passes, e)
        ]
