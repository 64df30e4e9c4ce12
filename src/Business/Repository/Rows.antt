-- ===== src/Business/Repository/Rows.antt =====
-- business/repository.py: what an INSERT makes of the rows of a table.
use bfsi_voice_agent.Prelude.{
  String, ◌≡◌, refl, Bool, true, false, not, ◌||◌, Option, none, some, List, [], ◌∷◌, ◌++◌, arith,
  eq_refl, if◌then◌else◌, All, All-append, Bool-cases, inl, inr, eq_iff, append_nil, sym,
}
use bfsi_voice_agent.Business.Repository.{has_id, find_id, insert_row}

module _ {A : Type 0} (key_ : A → String) where
  pub has_id-append :
      (k : String) (xs ys : List A)
      → has_id key_ k (xs ++ ys) ≡ (has_id key_ k xs || has_id key_ k ys)
  unfolding has_id
  has_id-append k [] ys = refl
  has_id-append k (x ∷ xs) ys = ground (arith, has_id-append k xs ys)

  find_id-append :
      (row : A) (rows : List A)
      → has_id key_ (key_ row) rows ≡ false
      → find_id key_ (key_ row) (rows ++ (row ∷ [])) ≡ some row
  unfolding has_id find_id
  find_id-append row [] h = ground (arith, eq_refl (key_ row))
  find_id-append row (x ∷ xs) h = ground (arith, find_id-append row xs)

  -- The INSERT raises, or it appends the row, which is what the SELECT finds.
  pub insert_row_lem :
      (refers : Bool) (row : A) (rows : List A)
      → insert_row refers key_ row rows ≡ (
          if not refers || has_id key_ (key_ row) rows
          then none
          else some (row, rows ++ (row ∷ [])))
  unfolding insert_row
  insert_row_lem refers row rows = elim (Bool-cases (not refers || has_id key_ (key_ row) rows)) [
    | inl e ↦ rw (e, insert_row) refl
    | inr e ↦
        let fresh : has_id key_ (key_ row) rows ≡ false = ground arith in
        rw (e, find_id-append row rows fresh) refl
  ]

  -- Primary keys are distinct.
  abbrev pub Distinct : List A → Type 0
  Distinct [] = Unit
  Distinct (row ∷ rows) = (has_id key_ (key_ row) rows ≡ false) × Distinct rows

  Distinct-append :
      (row : A) (rows : List A)
      → Distinct rows
      → has_id key_ (key_ row) rows ≡ false
      → Distinct (rows ++ (row ∷ []))
  unfolding has_id
  Distinct-append row [] h n = (refl, tt)
  Distinct-append row (x ∷ xs) h n = (
    ground (
      arith,
      has_id-append (key_ x) xs (row ∷ []),
      h.0,
      n,
      eq_iff (key_ x) (key_ row),
      eq_iff (key_ row) (key_ x),
    ),
    Distinct-append row xs h.1 (ground arith),
  )

  -- A table whose primary keys are distinct and whose foreign keys are known.
  abbrev pub Table : (A → String) → (String → Bool) → List A → Type 0
  Table refer known rows = Distinct rows × All (λ row. known (refer row) ≡ true) rows

  -- The rows that an operation leaves; none if it raises.
  abbrev pub rows_after : Option (A × List A) → List A → List A
  rows_after none rows = rows
  rows_after (some (row, rows')) rows = rows'

  pub Table-insert_row :
      (refer : A → String) (known : String → Bool) (row : A) (rows : List A)
      → Table refer known rows
      → Table refer known (rows_after (insert_row (known (refer row)) key_ row rows) rows)
  Table-insert_row refer known row rows h =
      elim (Bool-cases (not (known (refer row)) || has_id key_ (key_ row) rows)) [
        | inl e ↦ rw (insert_row_lem (known (refer row)) row rows, e) h
        | inr e ↦
            rw (insert_row_lem (known (refer row)) row rows, e)
              (
                Distinct-append row rows h.0 (ground arith),
                All-append (λ r. known (refer r) ≡ true) rows (row ∷ []) h.1 (ground arith, tt),
              )
      ]

  pub rows_after-grows :
      (refers : Bool) (row : A) (rows : List A)
      → (more : List A) × (rows_after (insert_row refers key_ row rows) rows ≡ rows ++ more)
  rows_after-grows refers row rows = elim (Bool-cases (not refers || has_id key_ (key_ row) rows)) [
    | inl e ↦ ([], rw (insert_row_lem refers row rows, e) (sym (append_nil rows)))
    | inr e ↦ (row ∷ [], rw (insert_row_lem refers row rows, e) refl)
  ]
