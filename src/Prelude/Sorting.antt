-- ===== src/Prelude/Sorting.antt =====
-- `list.sort(key=...)`: a stable insertion sort, which is what a stable sort returns, and the order
-- of Python's texts and tuples.
use dart_backend.Prelude.Tests.{ltb, nat_beq, if◌then◌else◌, Bool-cases}
use dart_backend.Prelude.Lists.{In}
use dart_backend.Prelude.Text.{Text}
use mathlib.Core.Path.{◌≡◌}
use mathlib.Core.Logic.{inl, inr}
use mathlib.Core.Bool.{Bool, true, false, ◌&&◌, ◌||◌}
use mathlib.Core.List.{List, [], ◌∷◌}

-- Code point by code point; a prefix comes first.
unfoldable pub text_leb : Text → Text → Bool
text_leb [] t = true
text_leb (c ∷ s) [] = false
text_leb (c ∷ s) (d ∷ t) = ltb c d || (nat_beq c d && text_leb s t)

module _ {A : Type 0} (le : A → A → Bool) where
  -- Before the first larger item, behind the equal ones.
  unfoldable pub insert_sorted : A → List A → List A
  insert_sorted a [] = a ∷ []
  insert_sorted a (x ∷ xs) = if le a x then a ∷ x ∷ xs else x ∷ insert_sorted a xs

  -- The items are put in from the last to the first, so that equal items keep their order.
  unfoldable pub sort_by : List A → List A
  unfolding insert_sorted
  sort_by [] = []
  sort_by (x ∷ xs) = insert_sorted x (sort_by xs)

  -- Each item comes before those behind it.
  abbrev pub IsSorted : List A → Type 0
  IsSorted [] = Unit
  IsSorted (x ∷ []) = Unit
  IsSorted (x ∷ y ∷ ys) = (le x y ≡ true) × IsSorted (y ∷ ys)

  pub In-insert_sorted : (a x : A) (xs : List A) → In a (insert_sorted x xs) → In a (x ∷ xs)
  unfolding insert_sorted
  In-insert_sorted a x [] h = h
  In-insert_sorted a x (y ∷ ys) h = elim (Bool-cases (le x y)) [
    | inl before ↦ rw before at h
    | inr behind ↦ elim (let h' : In a (y ∷ insert_sorted x ys) = (rw behind at h) in h') [
      | inl e ↦ inr (inl e)
      | inr there ↦ elim (In-insert_sorted a x ys there) [ inl e ↦ inl e | inr i ↦ inr (inr i) ]
    ]
  ]

  pub insert_sorted-In : (a x : A) (xs : List A) → In a (x ∷ xs) → In a (insert_sorted x xs)
  unfolding insert_sorted
  insert_sorted-In a x [] h = h
  insert_sorted-In a x (y ∷ ys) h = elim (Bool-cases (le x y)) [
    | inl before ↦ rw before h
    | inr behind ↦ rw behind (elim h [
      | inl e ↦ inr (insert_sorted-In a x ys (inl e))
      | inr (inl e) ↦ inl e
      | inr (inr i) ↦ inr (insert_sorted-In a x ys (inr i))
    ])
  ]

  pub In-sort_by : (a : A) (xs : List A) → In a (sort_by xs) → In a xs
  unfolding sort_by
  In-sort_by a [] h = h
  In-sort_by a (x ∷ xs) h = elim (In-insert_sorted a x (sort_by xs) h) [
    | inl e ↦ inl e
    | inr there ↦ inr (In-sort_by a xs there)
  ]

  pub sort_by-In : (a : A) (xs : List A) → In a xs → In a (sort_by xs)
  unfolding sort_by
  sort_by-In a [] h = absurd h
  sort_by-In a (x ∷ xs) (inl e) = insert_sorted-In a x (sort_by xs) (inl e)
  sort_by-In a (x ∷ xs) (inr there) =
      insert_sorted-In a x (sort_by xs) (inr (sort_by-In a xs there))

module _ {A : Type 0} (le : A → A → Bool) (total : (a b : A) → le a b ≡ false → le b a ≡ true) where
  insert_sorted-IsSorted :
      (x : A) (xs : List A) → IsSorted le xs → IsSorted le (insert_sorted le x xs)
  unfolding insert_sorted
  insert_sorted-IsSorted x [] h = tt
  insert_sorted-IsSorted x (y ∷ []) h = elim (Bool-cases (le x y)) [
    | inl before ↦ rw before (before, tt)
    | inr behind ↦ rw behind (total x y behind, tt)
  ]
  insert_sorted-IsSorted x (y ∷ z ∷ zs) h = elim (Bool-cases (le x y)) [
    | inl before ↦ rw before (before, h)
    | inr behind ↦
        let rest = insert_sorted-IsSorted x (z ∷ zs) h.1 in
        elim (Bool-cases (le x z)) [
          | inl mid ↦ rw (behind, mid) (total x y behind, (rw mid at rest))
          | inr far ↦ rw (behind, far) (h.0, (rw far at rest))
        ]
  ]

  pub sort_by-IsSorted : (xs : List A) → IsSorted le (sort_by le xs)
  unfolding sort_by
  sort_by-IsSorted [] = tt
  sort_by-IsSorted (x ∷ xs) = insert_sorted-IsSorted x (sort_by le xs) (sort_by-IsSorted xs)
