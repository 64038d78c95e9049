-- ===== src/Prelude/Distinct.antt =====
-- Lists whose members differ, and the keys of their members.
use mathlib.Core.Path.{◌≡◌, refl, ap, sym, ◌∙◌}
use mathlib.Core.Logic.{inl, inr}
use mathlib.Core.Bool.{Bool}
use mathlib.Core.List.{List, [], ◌∷◌, ◌++◌, map}
use dart_backend.Prelude.Tests.{Bool-cases}
use dart_backend.Prelude.Lists.{In, In-snoc, keep}

module _ {A : Type 0} where
  abbrev pub Distinct : List A → Type 0
  Distinct [] = Unit
  Distinct (x ∷ xs) = ¬ In x xs × Distinct xs

  pub Distinct-snoc : (a : A) (xs : List A) → Distinct xs → ¬ In a xs → Distinct (xs ++ a ∷ [])
  Distinct-snoc a [] d new = ((λ i. i), tt)
  Distinct-snoc a (x ∷ xs) (head, d) new = (
    (λ i. elim (In-snoc x a xs i) [ inl there ↦ head there | inr same ↦ new (inl (sym same)) ]),
    Distinct-snoc a xs d (λ i. new (inr i)),
  )

module _ {A B : Type 0} (f : A → B) where
  pub In-map : (a : A) (xs : List A) → In a xs → In (f a) (map f xs)
  In-map a [] i = absurd i
  In-map a (x ∷ xs) (inl same) = inl (ap f same)
  In-map a (x ∷ xs) (inr i) = inr (In-map a xs i)

  pub In-map_witness : (b : B) (xs : List A) → In b (map f xs) → (a : A) × In a xs × (f a ≡ b)
  In-map_witness b [] i = absurd i
  In-map_witness b (x ∷ xs) (inl same) = (x, inl refl, same)
  In-map_witness b (x ∷ xs) (inr i) =
      let (a, there, same) = In-map_witness b xs i in (a, inr there, same)

  pub map-append : (xs ys : List A) → map f (xs ++ ys) ≡ map f xs ++ map f ys
  map-append [] ys = refl
  map-append (x ∷ xs) ys = ap (λ zs. f x ∷ zs) (map-append xs ys)

  -- A key that none of the members has.
  pub Distinct-map_snoc :
      (a : A) (xs : List A)
      → Distinct (map f xs)
      → ((x : A) → In x xs → ¬ (f x ≡ f a))
      → Distinct (map f (xs ++ a ∷ []))
  Distinct-map_snoc a xs d new = rw (map-append xs (a ∷ [])) (
      Distinct-snoc (f a) (map f xs) d
        (λ i. let (x, there, same) = In-map_witness (f a) xs i in new x there same))

  -- Members with the same key are the same.
  pub Distinct-map_inj :
      (xs : List A) (a b : A) → Distinct (map f xs) → In a xs → In b xs → f a ≡ f b → a ≡ b
  Distinct-map_inj [] a b d i j same = absurd i
  Distinct-map_inj (x ∷ xs) a b (head, d) (inl e) (inl e') same = sym e ∙ e'
  Distinct-map_inj (x ∷ xs) a b (head, d) (inl e) (inr j) same =
      absurd (head (rw (ap f e ∙ same) (In-map b xs j)))
  Distinct-map_inj (x ∷ xs) a b (head, d) (inr i) (inl e') same =
      absurd (head (rw (ap f e' ∙ sym same) (In-map a xs i)))
  Distinct-map_inj (x ∷ xs) a b (head, d) (inr i) (inr j) same = Distinct-map_inj xs a b d i j same

  In-map-keep : (p : A → Bool) (b : B) (xs : List A) → In b (map f (keep p xs)) → In b (map f xs)
  In-map-keep p b [] i = i
  In-map-keep p b (x ∷ xs) i = elim (Bool-cases (p x)) [
    | inl holds ↦ elim (let i' : In b (f x ∷ map f (keep p xs)) = (rw holds at i) in i') [
      | inl e ↦ inl e
      | inr there ↦ inr (In-map-keep p b xs there)
    ]
    | inr fails ↦ inr (In-map-keep p b xs (rw fails at i))
  ]

  pub Distinct-map-keep :
      (p : A → Bool) (xs : List A) → Distinct (map f xs) → Distinct (map f (keep p xs))
  Distinct-map-keep p [] d = tt
  Distinct-map-keep p (x ∷ xs) (head, d) = elim (Bool-cases (p x)) [
    | inl holds ↦ rw holds ((λ i. head (In-map-keep p (f x) xs i)), Distinct-map-keep p xs d)
    | inr fails ↦ rw fails (Distinct-map-keep p xs d)
  ]
