-- ===== src/Workflow/Definition.antt =====
-- The definition of a workflow: app/services/workflow_definition.py.
use dart_backend.Prelude.{
  ℕ, ◌≡◌, refl, Bool, true, false, Option, none, some, List, [], ◌∷◌, ◌++◌, not, map, any, ◌==◌,
  nat_eq, list_eq, leb, Bool-cases, inl, inr, or_else, In, subst, any-true_at, any-witness,
  eq_of_==, ==_refl,
}
use dart_backend.Prelude.Text.{Text, txt, number_text}
use dart_backend.Prelude.Results.{Result, ok, raised, ◌>>=◌, ◌>>◌, raise_if, app_error}
use dart_backend.Prelude.Sorting.{sort_by}
use dart_backend.Workflow.{WorkflowStepDef}

abbrev pub allowed_step_types : List Text
allowed_step_types =
    txt "import_app_data"
    ∷ txt "import_bridge_data"
    ∷ txt "upload_dimensions"
    ∷ txt "run_bridge"
    ∷ txt "check_kickouts"
    ∷ txt "run_transformation"
    ∷ txt "run_report"
    ∷ []

abbrev pub plain_step :
    (key step_type : Text) (app_number : Option ℕ) (app_name : Text) → WorkflowStepDef
plain_step key step_type app_number app_name = record {
  key = key;
  step_type = step_type;
  ignore_kickout = false;
  kickout_tolerance = 0;
  app_number = app_number;
  app_name = app_name;
}

abbrev pub pipeline_tail : List WorkflowStepDef
pipeline_tail =
    plain_step (txt "run_bridge") (txt "run_bridge") none []
    ∷ plain_step (txt "check_kickouts") (txt "check_kickouts") none []
    ∷ plain_step (txt "run_transformation") (txt "run_transformation") none []
    ∷ plain_step (txt "run_report") (txt "run_report") none []
    ∷ []

abbrev pub default_imports : List WorkflowStepDef
default_imports =
    plain_step (txt "import_app_data_1") (txt "import_app_data") (some 1) (txt "App 1")
    ∷ plain_step (txt "import_app_data_2") (txt "import_app_data") (some 2) (txt "App 2")
    ∷ []

abbrev pub default_definition : List WorkflowStepDef
default_definition = default_imports ++ pipeline_tail

-- `ReconApp`
pub record ReconApp : Type 0 where
  pub app_number : ℕ
  pub name : Text

abbrev pub import_step : ReconApp → WorkflowStepDef
import_step app =
    plain_step (txt "import_app_data_" ++ number_text app.app_number) (txt "import_app_data")
      (some app.app_number) app.name

abbrev pub imports_or_default : List WorkflowStepDef → List WorkflowStepDef
imports_or_default [] = default_imports
imports_or_default (step ∷ steps) = step ∷ steps

unfoldable pub pipeline_for_apps : List ReconApp → List WorkflowStepDef
pipeline_for_apps apps =
    imports_or_default (map import_step (sort_by (λ a b. leb a.app_number b.app_number) apps))
    ++ pipeline_tail

-- The loop of `validated_definition` with the set of the keys so far.
unfoldable pub check_steps : List Text → List WorkflowStepDef → Result (Unit {0})
check_steps keys [] = ok tt
check_steps keys (step ∷ steps) = do
  raise_if (not (any (λ t. t == step.step_type) allowed_step_types)) (
      app_error (txt "Unknown workflow step type '" ++ step.step_type ++ txt "'.")
        (txt "invalid_step_type"))
  raise_if (any (λ k. k == step.key) keys)
      (app_error (txt "Workflow step keys must be unique.") (txt "duplicate_step_key"))
  check_steps (step.key ∷ keys) steps

-- `validated_definition` of a definition that the schema has read, or of none.
unfoldable pub validated_definition : Option (List WorkflowStepDef) → Result (List WorkflowStepDef)
validated_definition raw = do
  let steps = or_else raw default_definition
  check_steps [] steps
  ok steps

-- A list of steps without an unknown type, and without a key that stands in `keys` or twice.
abbrev pub IsValid : List Text → List WorkflowStepDef → Type 0
IsValid keys [] = Unit
IsValid keys (step ∷ steps) =
    In step.step_type allowed_step_types × ¬ In step.key keys × IsValid (step.key ∷ keys) steps

-- What the answer says of the steps.
abbrev Checked : List Text → List WorkflowStepDef → Result (Unit {0}) → Type 0
Checked keys steps (ok done) = IsValid keys steps
Checked keys steps (raised e) = ¬ IsValid keys steps

In-of_any : (t : Text) (ts : List Text) → any (λ a. a == t) ts ≡ true → In t ts
In-of_any t ts h =
    let (a, there, same) = any-witness (λ a. a == t) ts h in
    subst (λ x. In x ts) (eq_of_== a t same) there

any-of_In : (t : Text) (ts : List Text) → In t ts → any (λ a. a == t) ts ≡ true
any-of_In t ts there = any-true_at (λ a. a == t) ts t there (==_refl t)

not_both : (b : Bool) → b ≡ true → b ≡ false → ⊥
not_both b is_true is_false = cc

later :
    (keys : List Text) (step : WorkflowStepDef) (steps : List WorkflowStepDef)
    (rest : Result (Unit {0}))
    → any (λ t. t == step.step_type) allowed_step_types ≡ true
    → any (λ k. k == step.key) keys ≡ false
    → Checked (step.key ∷ keys) steps rest
    → Checked keys (step ∷ steps) rest
later keys step steps (ok done) known new valid = (
  In-of_any step.step_type allowed_step_types known,
  λ there. not_both _ (any-of_In step.key keys there) new,
  valid,
)
later keys step steps (raised e) is_known new invalid =
    λ valid. let (known_type, fresh, others) = valid in invalid others

check_steps-Checked :
    (keys : List Text) (steps : List WorkflowStepDef) → Checked keys steps (check_steps keys steps)
unfolding check_steps
check_steps-Checked keys [] = tt
check_steps-Checked keys (step ∷ steps) =
    elim (Bool-cases (any (λ t. t == step.step_type) allowed_step_types)) [
      | inr unknown ↦ rw unknown (λ valid.
          let (known_type, fresh, others) = valid in
          not_both _ (any-of_In step.step_type allowed_step_types known_type) unknown)
      | inl known ↦ rw known (elim (Bool-cases (any (λ k. k == step.key) keys)) [
        | inl twice ↦ rw twice (λ valid.
            let (known_type, fresh, others) = valid in fresh (In-of_any step.key keys twice))
        | inr new ↦ rw new (
            later keys step steps (check_steps (step.key ∷ keys) steps) known new
              (check_steps-Checked (step.key ∷ keys) steps))
      ])
    ]

-- What an answer of `validated_definition` says of the definition.
abbrev pub Validated : List WorkflowStepDef → Result (List WorkflowStepDef) → Type 0
Validated steps (ok checked) = (checked ≡ steps) × IsValid [] steps
Validated steps (raised e) = ¬ IsValid [] steps

validated :
    (steps : List WorkflowStepDef) (done : Result (Unit {0}))
    → Checked [] steps done
    → Validated steps (done >>= λ u. ok steps)
validated steps (ok u) valid = (refl, valid)
validated steps (raised e) invalid = invalid

-- A definition is accepted, unchanged, exactly when each of its step types is allowed and no two
-- steps have the same key; the default definition stands for one that is missing.
pub validated_definition_lem :
    (raw : Option (List WorkflowStepDef))
    → Validated (or_else raw default_definition) (validated_definition raw)
unfolding validated_definition
validated_definition_lem raw =
    validated (or_else raw default_definition) _
      (check_steps-Checked [] (or_else raw default_definition))
