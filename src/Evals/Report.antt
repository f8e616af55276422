-- ===== src/Evals/Report.antt =====
-- `write_report` of src/rif-evals/code_refinement_mst/runners/run_session.py: the rows of a report, merged
-- with those of the report before. A row has its values typed; the two keys that an older report may
-- lack are options.
pub mod Latest
pub mod Ordered
use Prim.Native.Nat.{Ordering}
use Prim.Native.String.{compare, then as and_then}
use mandare.Prelude.{
  ℕ, String, Bool, true, false, not, ◌==◌, ◌&&◌, Option, none, some, List, [], ◌∷◌, ◌++◌, map, any,
  if◌then◌else◌, text_append,
}

pub record ReportRow : Type 0 where
  pub task_id : String
  pub model : String
  pub turns_attempted : ℕ
  pub turns_passed : ℕ
  pub turns_blocked : Option ℕ
  pub first_regression_turn : Option ℕ
  pub mst_score : ℕ
  pub score_is_meaningful : Option Bool

abbrev pub Key : Type 0
Key = String × String

abbrev pub key_of : ReportRow → Key
key_of row = (row.task_id, row.model)

-- `==` of two keys
unfoldable pub same_key : Key → Key → Bool
same_key j k = j.0 == k.0 && j.1 == k.1

-- The order of tuples of texts.
unfoldable pub key_compare : Key → Key → Ordering
key_compare j k = and_then (compare j.0 k.0) (compare j.1 k.1)

-- `merged[(row["task_id"], row["model"])] = row`: a dict is its values, in insertion order.
unfoldable pub merge_row : ReportRow → List ReportRow → List ReportRow
merge_row row [] = row ∷ []
merge_row row (r ∷ rows) =
    if same_key (key_of r) (key_of row) then row ∷ rows else r ∷ merge_row row rows

unfoldable pub merge_rows : List ReportRow → List ReportRow → List ReportRow
merge_rows merged [] = merged
merge_rows merged (row ∷ rows) = merge_rows (merge_row row merged) rows

-- `first` unless the comparison says that it comes later
abbrev pub place {ℓ} : {A : Type ℓ} → Ordering → A → A → A
place Ordering.gt first later = later
place _ first later = first

unfoldable pub insert_row : ReportRow → List ReportRow → List ReportRow
insert_row row [] = row ∷ []
insert_row row (r ∷ rows) =
    let rest = insert_row row rows in
    place (key_compare (key_of row) (key_of r)) (row ∷ r ∷ rows) (r ∷ rest)

-- `sorted(merged.values(), key=...)`
unfoldable pub sorted_rows : List ReportRow → List ReportRow
unfolding insert_row
sorted_rows [] = []
sorted_rows (row ∷ rows) = insert_row row (sorted_rows rows)

-- `combined`
unfoldable pub combined : List ReportRow → List ReportRow → List ReportRow
unfolding merge_rows sorted_rows
combined existing results = sorted_rows (merge_rows (merge_rows [] existing) results)

-- `row.get("score_is_meaningful", True)`
abbrev pub is_meaningful : ReportRow → Bool
is_meaningful row = elim row.score_is_meaningful [ none ↦ true | some b ↦ b ]

-- The texts of numbers, as a format gives them.
module _ (numeral : ℕ → String) where
  abbrev pub numeral_or_none : Option ℕ → String
  numeral_or_none none = "None"
  numeral_or_none (some n) = numeral n

  -- A cell, and the bar and the space before it.
  abbrev pub cell : String → String → String
  cell text line = text_append "| " (text_append text (text_append " " line))

  abbrev pub score_cell : ReportRow → String
  score_cell row =
      if is_meaningful row
      then numeral row.mst_score
      else text_append (numeral row.mst_score) " (INVALID)"

  -- The line of a row.
  unfoldable pub row_line : ReportRow → String
  row_line row =
      let blocked : ℕ = elim row.turns_blocked [ none ↦ 0 | some n ↦ n ] in
      cell row.task_id (
        cell row.model (
          cell (numeral row.turns_attempted) (
            cell (numeral row.turns_passed) (
              cell (numeral blocked)
                (cell (numeral_or_none row.first_regression_turn) (cell (score_cell row) "|"))))))

  abbrev pub heading : List String
  heading =
      "# MST-RIF Report" ∷ ""
      ∷ "| task_id | model | turns_attempted | turns_passed | turns_blocked | first_regression_turn | mst_score |"
      ∷ "| --- | --- | --- | --- | --- | --- | --- |" ∷ []

  abbrev pub invalid_note : List String
  invalid_note =
      ""
      ∷ "> **INVALID**: every turn in that session was blocked by policy, so nothing was verified and the score measures nothing."
      ∷ []

  -- `md_lines`
  unfoldable pub md_lines : List ReportRow → List String
  unfolding row_line
  md_lines rows =
      heading
      ++ map row_line rows
      ++ (if any (λ row. not (is_meaningful row)) rows then invalid_note else [])

  -- `write_report`: what the JSON file holds afterwards, and the lines of the Markdown file.
  unfoldable pub write_report :
      Option (List ReportRow) → List ReportRow → List ReportRow × List String
  unfolding combined md_lines
  write_report report results =
      let existing : List ReportRow = elim report [ none ↦ [] | some rows ↦ rows ] in
      let rows = combined existing results in (rows, md_lines rows)
