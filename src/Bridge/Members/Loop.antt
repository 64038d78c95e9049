-- ===== src/Bridge/Members/Loop.antt =====
-- The loop of an import of `bridge_mappings`.
use mathlib.Core.List.{append_assoc}
use dart_backend.Prelude.{
  ℕ, suc, ◌≡◌, refl, sym, ap, subst, ◌∙◌, inl, inr, Bool, true, ◌||◌, Option, none, some, List, [],
  ◌∷◌, ◌++◌, if◌then◌else◌, any, nat_eq, list_eq, pair_eq, ◌==◌, is_some, Bool-cases, Option-cases,
  In, In-snoc, any-true_at, any-append, arith, ==_refl, In-append_right,
}
use dart_backend.Prelude.Dict.{Dict, get, put}
use dart_backend.Prelude.Distinct.{Distinct, Distinct-map_snoc}
use dart_backend.Prelude.Text.{Text, txt, is_empty}
use dart_backend.Prelude.Results.{Result, ok, >>=-eq-ok, ok_inj}
use dart_backend.Bridge.{
  BridgeMapping, MappingKey, mapping_key, canonical_dimension_name, is_amount_dimension,
}
use dart_backend.Bridge.Members.{
  Request, Table, StoredMapping, stored_key, assert_app_not_signed_off,
}
use dart_backend.Bridge.Members.Keys.{keys, mapping_key_app}
use dart_backend.Bridge.Members.Importing.{
  Import, File, place_row, import_mapping, import_checked, import_row, import_rows, row_app_of,
  mapping_of_row, cell_of, row_of, Row, row_error,
}
use dart_backend.Bridge.Members.Index.{Index, has-put_same, has-put, has-put_only}

module _ (q : Request) (app_number : Option ℕ) (overwrite : Bool) (kept : Table) where
  -- The rows are those that were kept and new ones of the recon, and of the app of the form.
  abbrev pub IsNew : StoredMapping → Type 0
  IsNew s = (s.recon_id ≡ q.recon_id) × ((a : ℕ) → app_number ≡ some a → s.mapping.app_number ≡ a)

  abbrev pub Appended : Table → Type 0
  Appended rows = (new : Table) × (rows ≡ kept ++ new) × ((s : StoredMapping) → In s new → IsNew s)

  abbrev Indexed : Index → Table → Type 0
  Indexed d rows =
      (s : StoredMapping)
      → In s rows
      → s.recon_id ≡ q.recon_id
      → is_some (get (stored_key s).1 d) ≡ true

  -- An import that overwrites has no key of its app but those of the file.
  abbrev Wiped : Index → List MappingKey → Type 0
  Wiped d seen =
      overwrite ≡ true
      → (a : ℕ) → app_number ≡ some a
      → (k : MappingKey) → k.0 ≡ a
      → is_some (get k d) ≡ true
      → any (λ j. j == k) seen ≡ true

  abbrev pub Loop : Import → Type 0
  Loop st =
      Distinct (keys st.rows)
      × Appended st.rows
      × Indexed st.existing_keys st.rows
      × Wiped st.existing_keys st.seen_in_file

  abbrev Scoped : Type 0
  Scoped = overwrite ≡ true → (a : ℕ) × (app_number ≡ some a)

  abbrev OfForm : BridgeMapping → Type 0
  OfForm m = (a : ℕ) → app_number ≡ some a → m.app_number ≡ a

  new_row-Loop :
      (m : BridgeMapping) (st : Import)
      → OfForm m
      → get (mapping_key m.app_number m.dimension_name m.source_member) st.existing_keys ≡ none
      → Loop st
      → Loop (
          place_row q.recon_id overwrite
            (mapping_key m.app_number m.dimension_name m.source_member)
            m
            none
            (record st {
              seen_in_file =
                  st.seen_in_file ++ mapping_key m.app_number m.dimension_name m.source_member ∷ [];
            }))
  unfolding place_row
  new_row-Loop m st form nothing (distinct, (new, rows, all_new), indexed, wiped_keys) =
      let k = mapping_key m.app_number m.dimension_name m.source_member in
      let s : StoredMapping = record { id = st.next_id; recon_id = q.recon_id; mapping = m } in
      (
        Distinct-map_snoc stored_key s st.rows distinct (λ r there same.
            let had = indexed r there (ap (λ x. x.0) same) in
            let had' : is_some (get k st.existing_keys) ≡ true =
              subst (λ j. is_some (get j st.existing_keys) ≡ true) (ap (λ x. x.1) same) had in
            absurd (let c : is_some {A = ℕ} none ≡ true = (rw nothing at had') in ground arith)),
        (
          new ++ s ∷ [],
          ap (λ x. x ++ s ∷ []) rows ∙ append_assoc kept new (s ∷ []),
          (λ r there. elim (In-snoc r s new there) [
            | inl old ↦ all_new r old
            | inr same ↦ subst IsNew same (refl, form)
          ]),
        ),
        (λ r there recon. elim (In-snoc r s st.rows there) [
          | inl old ↦ has-put k (stored_key r).1 st.next_id st.existing_keys (indexed r old recon)
          | inr same ↦
              subst (λ x. is_some (get (stored_key x).1 (put k st.next_id st.existing_keys)) ≡ true)
                same (has-put_same k st.next_id st.existing_keys)
        ]),
        (λ over a given j key_app had. elim (has-put_only k j st.next_id st.existing_keys had) [
          | inl same ↦
              any-true_at (λ x. x == j) (st.seen_in_file ++ k ∷ []) k
                (In-append_right k st.seen_in_file (k ∷ []) (inl refl)) (rw (← same) (==_refl k))
          | inr old ↦
              any-append (λ x. x == j) st.seen_in_file (k ∷ [])
                (wiped_keys over a given j key_app old)
        ]),
      )

  module _ (scoped : Scoped) (value_error : Text → Text) where
    import_mapping-Loop :
        (m : BridgeMapping) (st : Import)
        → OfForm m
        → Loop st
        → Loop (import_mapping value_error q app_number overwrite m st)
    unfolding import_mapping place_row
    import_mapping-Loop m st form (distinct, appended, indexed, wiped_keys) =
        let k = mapping_key m.app_number m.dimension_name m.source_member in
        elim (Bool-cases (any (λ j. j == k) st.seen_in_file)) [
          | inl seen ↦ rw seen (distinct, appended, indexed, wiped_keys)
          | inr unseen ↦ rw unseen (elim (Option-cases (get k st.existing_keys)) [
            | inl nothing ↦
                rw nothing
                  (new_row-Loop m st form nothing (distinct, appended, indexed, wiped_keys))
            | inr (e, found) ↦ rw found (elim (Bool-cases overwrite) [
              | inl over ↦
                  let (a, given) = scoped over in
                  let seen : any (λ j. j == k) st.seen_in_file ≡ true =
                    wiped_keys over a given k
                      (mapping_key_app m.app_number m.dimension_name m.source_member ∙ form a given)
                      (rw found refl) in
                  absurd (ground arith)
              | inr merge ↦ rw merge (
                distinct,
                appended,
                indexed,
                (λ over a given j key_app had. absurd (ground arith)),
              )
            ])
          ])
        ]

    import_checked-Loop :
        (m : BridgeMapping) (st next : Import)
        → OfForm m
        → Loop st
        → import_checked value_error q app_number overwrite m st ≡ ok next
        → Loop next
    unfolding import_checked
    import_checked-Loop m st next form loop h =
        elim (Bool-cases (is_amount_dimension m.dimension_name)) [
          | inl amount ↦
              subst Loop
                (ok_inj st next (
                  let h' : ◌≡◌ {A = Result Import} (ok st) (ok next) =
                    (rw (import_checked, amount) at h) in
                  h'))
                loop
          | inr bridged ↦
              let (allowed, open_app, h1) =
                >>=-eq-ok
                  (if is_some app_number
                    then ok tt
                    else assert_app_not_signed_off q.signoffs q.recon_id m.app_number)
                  _ (let h' = (rw (import_checked, bridged) at h) in h') in
              subst Loop (ok_inj _ next h1) (import_mapping-Loop m st form loop)
        ]

    row_app-form :
        (line_no : ℕ) (text : Text) (n a : ℕ)
        → row_app_of value_error app_number line_no text ≡ ok n
        → app_number ≡ some a
        → n ≡ a
    unfolding row_app_of
    row_app-form line_no text n a h given = sym (
        ok_inj a n
          (let h' : ◌≡◌ {A = Result ℕ} (ok a) (ok n) = (rw (row_app_of, given) at h) in h'))

    import_row-Loop :
        (header_map : Dict Text Text) (line_no : ℕ) (row : Row) (st next : Import)
        → Loop st
        → import_row value_error q app_number overwrite header_map line_no row st ≡ ok next
        → Loop next
    unfolding import_row mapping_of_row
    import_row-Loop header_map line_no row st next loop h =
        let (n, is_n, h1) =
          >>=-eq-ok
            (row_app_of value_error app_number line_no (cell_of header_map row (txt "app_number")))
            _ h in
        let d =
          canonical_dimension_name (cell_of header_map row (txt "dimension_name")) n q.aliases in
        let m = mapping_of_row header_map row n d in
        let (z, complete, h2) =
          >>=-eq-ok
            (if is_empty m.dimension_name || is_empty m.source_member || is_empty m.bridge_member
              then row_error line_no
                  (txt "dimension_name, source_member, and bridge_member are required")
              else ok 0)
            _ h1 in
        import_checked-Loop m st next (λ a given. row_app-form line_no _ n a is_n given) loop h2

    pub import_rows-Loop :
        (file : File) (line_no : ℕ) (rows : List (List Text)) (st done : Import)
        → Loop st
        → import_rows value_error q app_number overwrite file line_no rows st ≡ ok done
        → Loop done
    unfolding import_rows
    import_rows-Loop file line_no [] st done loop h = subst Loop (ok_inj st done h) loop
    import_rows-Loop file line_no (row ∷ rows) st done loop h =
        let (next, is_next, h1) =
          >>=-eq-ok
            (import_row value_error q app_number overwrite file.header_map line_no
              (row_of file.fieldnames row []) st)
            _ h in
        import_rows-Loop file (suc line_no) rows next done
          (import_row-Loop file.header_map line_no (row_of file.fieldnames row []) st next loop
            is_next)
          h1
