-- ===== src/Schedule/Field.antt =====
-- The members of the set that `parse_cron_field` (app/services/workflow_schedule.py) returns.
use dart_backend.Prelude.{
  ℕ, zero, suc, ◌+◌, ◌*◌, ◌-◌, ◌≤◌, ◌<◌, ◌≡◌, ◌⊎◌, refl, sym, ap, subst, inl, inr, Bool, true,
  false, Option, none, some, List, [], ◌∷◌, ◌++◌, keep, leb, In, In-keep, In-keep_of, In-append,
  In-append_left, In-append_right, Bool-cases, arith, ◌↔◌, ◌∙◌, Option-cases, ◌||◌, ◌==◌, list_eq,
  nat_eq,
}
use dart_backend.Prelude.Int.{ℤ}
use dart_backend.Prelude.Text.{Text, txt, is_empty}
use dart_backend.Prelude.Results.{Result, ok, ◌>>=◌, >>=-eq-ok, ok_inj, raise_if, value_error}
use dart_backend.Schedule.{
  Part, read_part, range_from, range_of, values_of, in_bounds, parse_cron_field, split_on, has_none,
  at_least_one, step_from, body_part, int_or_raise, unsigned, end_of, cut,
}

-- A value of a part: it is reached from the start by steps, and is not behind the end.
abbrev pub Selects : Part → ℕ → Type 0
Selects p v =
    (last : ℕ) × (p.stop ≡ some last) × (v ≤ last) × ((n : ℕ) × (v ≡ p.start + n * p.step))

-- One of the parts of the text selects the value.
abbrev pub Selected : (minimum maximum : ℕ) → List Text → ℕ → Type 0
Selected minimum maximum [] v = ⊥
Selected minimum maximum (part ∷ parts) v =
    ((p : Part) × (read_part minimum maximum part ≡ ok p) × Selects p v)
    ⊎ Selected minimum maximum parts v

next_step : (start step n : ℕ) → (start + step) + n * step ≡ start + suc n * step
next_step start step n = omega arith

range_from_sound :
    (fuel start last step v : ℕ)
    → In v (range_from fuel start last step)
    → (v ≤ last) × ((n : ℕ) × (v ≡ start + n * step))
unfolding range_from
range_from_sound zero start last step v i = absurd i
range_from_sound (suc fuel) start last step v i = elim (Bool-cases (leb start last)) [
  | inr beyond ↦ absurd (let c : ⊥ = (rw beyond at i) in c)
  | inl within ↦
      elim (let i' : In v (start ∷ range_from fuel (start + step) last step) = (rw within at i) in
        i') [
          | inl same ↦ (ground arith, (0, omega arith))
          | inr there ↦
              let (low, (n, is_v)) = range_from_sound fuel (start + step) last step v there in
              (low, (suc n, is_v ∙ next_step start step n))
        ]
]

below : (start step n : ℕ) → start ≤ start + n * step
below start step n = omega arith

range_from_complete :
    (fuel start last step n : ℕ)
    → 1 ≤ step
    → start + n * step ≤ last
    → last < start + fuel
    → In (start + n * step) (range_from fuel start last step)
unfolding range_from
range_from_complete zero start last step n positive low enough =
    absurd (omega (arith, below start step n))
range_from_complete (suc fuel) start last step zero positive low enough =
    let within : leb start last ≡ true = ground arith in rw within (inl (omega arith))
range_from_complete (suc fuel) start last step (suc n) positive low enough =
    let within : leb start last ≡ true = ground (arith, below start step (suc n)) in
    rw within (
      inr (
        subst (λ v. In v (range_from fuel (start + step) last step)) (next_step start step n)
          (range_from_complete fuel (start + step) last step n positive
            (rw (next_step start step n) low) (omega arith))))

-- The members of the range of a part.
In-range_of_sound : (p : Part) (v : ℕ) → In v (range_of p.start p.step p.stop) → Selects p v
In-range_of_sound p v i = in_range p.start p.step p.stop i
  where
    in_range :
        (start step : ℕ) (stop : Option ℕ)
        → In v (range_of start step stop)
        → (last : ℕ) × (stop ≡ some last) × (v ≤ last) × ((n : ℕ) × (v ≡ start + n * step))
    in_range start step none i = absurd i
    in_range start step (some last) i =
        let (low, reached) = range_from_sound (suc last - start) start last step v i in
        (last, refl, low, reached)

In-range_of_complete :
    (p : Part) (v : ℕ) → 1 ≤ p.step → Selects p v → In v (range_of p.start p.step p.stop)
In-range_of_complete p v positive (last, stop, low, (n, is_v)) =
    rw (stop, is_v)
      (range_from_complete (suc last - p.start) p.start last p.step n positive (rw is_v at low)
        (omega (arith, below p.start p.step n, rw is_v at low)))

at_least_one-step : (z : ℤ) (n : ℕ) → at_least_one z ≡ ok n → 1 ≤ n
at_least_one-step (ℤ.pos zero) n h = absurd (ground arith)
at_least_one-step (ℤ.pos (suc k)) n h = let e : suc k ≡ n = ok_inj (suc k) n h in omega arith
at_least_one-step (ℤ.negsuc k) n h = absurd (ground arith)

step_from-positive : (s : Text) (n : ℕ) → step_from (some s) ≡ ok n → 1 ≤ n
step_from-positive s n h =
    let (z, is_z, h1) = >>=-eq-ok (int_or_raise s) _ h in at_least_one-step z n h1

abbrev parts_body : ℕ → Option (Text × Text) → ℕ → ℕ → Text → Result Part
parts_body step (some (start_s, end_s)) minimum maximum body = do
  first ← int_or_raise start_s
  start ← unsigned first
  last ← int_or_raise end_s
  ok (record { start = start; stop = end_of last; step = step })
parts_body step none minimum maximum body = do
  first ← int_or_raise body
  start ← unsigned first
  ok (record { start = start; stop = some start; step = step })

parts_body-step :
    (step : ℕ) (o : Option (Text × Text)) (minimum maximum : ℕ) (body : Text) (p : Part)
    → parts_body step o minimum maximum body ≡ ok p
    → p.step ≡ step
parts_body-step step (some (start_s, end_s)) minimum maximum body p h =
    let (first, is_first, h1) = >>=-eq-ok (int_or_raise start_s) _ h in
    let (start, is_start, h2) = >>=-eq-ok (unsigned first) _ h1 in
    let (last, is_last, h3) = >>=-eq-ok (int_or_raise end_s) _ h2 in
    sym (ap (λ x. x.step) (ok_inj _ p h3))
parts_body-step step none minimum maximum body p h =
    let (first, is_first, h1) = >>=-eq-ok (int_or_raise body) _ h in
    let (start, is_start, h2) = >>=-eq-ok (unsigned first) _ h1 in
    sym (ap (λ x. x.step) (ok_inj _ p h2))

body_part-step :
    (minimum maximum step : ℕ) (body : Text) (p : Part)
    → body_part minimum maximum step body ≡ ok p
    → p.step ≡ step
body_part-step minimum maximum step body p h =
    elim (Bool-cases (body == txt "*" || is_empty body)) [
      | inl whole ↦ sym (
          ap (λ x. x.step)
            (ok_inj _ p (
              let h' : ◌≡◌ {A = Result Part}
                  (ok (record { start = minimum; stop = some maximum; step = step })) (ok p) =
                (rw whole at h) in
              h')))
      | inr other ↦ elim (Option-cases (cut 45 body)) [
        | inl none_cut ↦
            parts_body-step step none minimum maximum body p
              (let h' = (rw (other, none_cut) at h) in h')
        | inr (halves, is_cut) ↦
            parts_body-step step (some halves) minimum maximum body p
              (let h' = (rw (other, is_cut) at h) in h')
      ]
    ]

read_part-step :
    (minimum maximum : ℕ) (part : Text) (p : Part)
    → read_part minimum maximum part ≡ ok p
    → 1 ≤ p.step
unfolding read_part
read_part-step minimum maximum part p h = elim (Option-cases (cut 47 part)) [
  | inl none_cut ↦
      let one =
        body_part-step minimum maximum 1 part p (let h' = (rw (read_part, none_cut) at h) in h') in
      omega arith
  | inr ((body, step_s), is_cut) ↦
      let (step, is_step, h1) =
        >>=-eq-ok (step_from (some step_s)) _ (let h' = (rw (read_part, is_cut) at h) in h') in
      let positive = step_from-positive step_s step is_step in
      let same = body_part-step minimum maximum step body p h1 in omega arith
]

values_of-Selected :
    (minimum maximum : ℕ) (parts : List Text) (values : List ℕ) (v : ℕ)
    → values_of minimum maximum parts ≡ ok values
    → In v values ↔ Selected minimum maximum parts v
unfolding values_of
values_of-Selected minimum maximum [] values v h =
    ((λ i. subst (In v) (sym (ok_inj [] values h)) i), (λ i. absurd i))
values_of-Selected minimum maximum (part ∷ parts) values v h =
    let (p, is_p, h1) = >>=-eq-ok (read_part minimum maximum part) _ h in
    let (rest, is_rest, h2) = >>=-eq-ok (values_of minimum maximum parts) _ h1 in
    let both = ok_inj (range_of p.start p.step p.stop ++ rest) values h2 in
    let rec = values_of-Selected minimum maximum parts rest v is_rest in
    (
      (λ i. elim (In-append v (range_of p.start p.step p.stop) rest (subst (In v) (sym both) i)) [
        | inl here ↦ inl (p, is_p, In-range_of_sound p v here)
        | inr there ↦ inr (rec.0 there)
      ]),
      (λ s. subst (In v) both (elim s [
        | inl (p', is_p', selected) ↦
            let same = ok_inj p' p (sym is_p' ∙ is_p) in
            In-append_left v (range_of p.start p.step p.stop) rest (
              In-range_of_complete p v (read_part-step minimum maximum part p is_p)
                (subst (λ x. Selects x v) same selected))
        | inr there ↦ In-append_right v (range_of p.start p.step p.stop) rest (rec.1 there)
      ])),
    )

-- A field that is read matches a value exactly if the value is within the bounds of the field
-- and one of the parts between the commas selects it: it is reached from the part's start in steps and
-- does not pass the part's end. It matches one value at least.
pub parse_cron_field_lem :
    (expr : Text) (minimum maximum : ℕ) (out : List ℕ)
    → parse_cron_field expr minimum maximum ≡ ok out
    → (has_none out ≡ false)
      × ((v : ℕ)
          → In v out
            ↔ ((minimum ≤ v) × (v ≤ maximum) × Selected minimum maximum (split_on 44 expr) v))
unfolding parse_cron_field
parse_cron_field_lem expr minimum maximum out h =
    let (values, is_values, h1) = >>=-eq-ok (values_of minimum maximum (split_on 44 expr)) _ h in
    let kept = keep (in_bounds minimum maximum) values in
    let (u, matched, h2) = >>=-eq-ok (raise_if (has_none kept) value_error) _ h1 in
    let same : kept ≡ out = ok_inj kept out h2 in
    (
      subst (λ x. has_none x ≡ false) same (raise_if_ok (has_none kept) u matched),
      (λ v.
          let inside = values_of-Selected minimum maximum (split_on 44 expr) values v is_values in
          (
            (λ i.
                let (there, bounded) =
                  In-keep (in_bounds minimum maximum) values v (subst (In v) (sym same) i) in
                (ground arith, ground arith, inside.0 there)),
            (λ (low, high, selected). subst (In v) same (
                In-keep_of (in_bounds minimum maximum) values v (inside.1 selected)
                  (ground arith))),
          )),
    )
  where
    raise_if_ok : (test : Bool) (u : Unit {0}) → raise_if test value_error ≡ ok u → test ≡ false
    raise_if_ok false u h = refl
    raise_if_ok true u h = absurd (ground arith)
