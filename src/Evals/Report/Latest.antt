-- ===== src/Evals/Report/Latest.antt =====
-- Which rows a report of src/rif-evals/code_refinement_mst/runners/run_session.py has, and in which
-- order.
use Prim.Native.Nat.{Ordering}
use text.Mathlib.TextPositions.{compare_refl}
use mandare.Prelude.{
  ◌≡◌, refl, ap, ◌∙◌, inl, inr, Bool, true, false, Bool-cases, ◌==◌, ◌&&◌, eq_iff, eq_refl, Option,
  none, some, List, [], ◌∷◌, if◌then◌else◌, arith,
}
use mandare.Evals.Report.{
  ReportRow, Key, key_of, same_key, key_compare, merge_row, merge_rows, insert_row, sorted_rows,
  combined, place,
}

-- The first row under a key.
unfoldable pub row_under : Key → List ReportRow → Option ReportRow
row_under k [] = none
row_under k (r ∷ rows) =
    let rest = row_under k rows in if same_key (key_of r) k then some r else rest

-- The first of the two that there is.
abbrev pub first_of : Option ReportRow → Option ReportRow → Option ReportRow
first_of (some r) other = some r
first_of none other = other

-- The last row under a key.
unfoldable pub last_under : Key → List ReportRow → Option ReportRow
last_under k [] = none
last_under k (r ∷ rows) =
    first_of (last_under k rows) (if same_key (key_of r) k then some r else none)

and_true : (b c : Bool) → (b && c) ≡ true → (b ≡ true) × (c ≡ true)
and_true b c h = ground arith

pub same_key_eq : (j k : Key) → same_key j k ≡ true → j ≡ k
unfolding same_key
same_key_eq (a, b) (c, d) h =
    let both : ((a == c) ≡ true) × ((b == d) ≡ true) = and_true (a == c) (b == d) h in
    ap (λ x. (x, b)) ((eq_iff a c).0 both.0) ∙ ap (λ x. (c, x)) ((eq_iff b d).0 both.1)

pub same_key_refl : (k : Key) → same_key k k ≡ true
unfolding same_key
same_key_refl (a, b) = rw (eq_refl a, eq_refl b) refl

-- Two keys that are both a third one are one key.
same_key_join : (i j k : Key) → same_key i k ≡ true → same_key j k ≡ true → same_key i j ≡ true
same_key_join i j k p q = rw (same_key_eq i k p, same_key_eq j k q) (same_key_refl k)

-- A row of another key may stand first.
pass_over :
    (k : Key) (r row : ReportRow) (found rest : Option ReportRow)
    → same_key (key_of r) (key_of row) ≡ false
    → found ≡ (if same_key (key_of row) k then some row else rest)
    → (if same_key (key_of r) k then some r else found) ≡ (
        if same_key (key_of row) k
        then some row
        else if same_key (key_of r) k
        then some r
        else rest)
pass_over k r row found rest apart e = elim (Bool-cases (same_key (key_of r) k)) [
  | inr other ↦ rw (other, e) refl
  | inl here ↦ elim (Bool-cases (same_key (key_of row) k)) [
    | inr other ↦ rw (here, other) refl
    | inl there ↦ cc (same_key_join (key_of r) (key_of row) k here there, apart)
  ]
]

pub row_under-merge_row :
    (k : Key) (row : ReportRow) (rows : List ReportRow)
    → row_under k (merge_row row rows)
      ≡ (if same_key (key_of row) k then some row else row_under k rows)
unfolding row_under merge_row
row_under-merge_row k row [] = refl
row_under-merge_row k row (r ∷ rows) = elim (Bool-cases (same_key (key_of r) (key_of row))) [
  | inl same ↦ elim (Bool-cases (same_key (key_of row) k)) [
    | inl here ↦ rw (same, here) refl
    | inr other ↦ rw (same, same_key_eq (key_of r) (key_of row) same, other) refl
  ]
  | inr apart ↦ rw apart (
      pass_over k r row (row_under k (merge_row row rows)) (row_under k rows) apart
        (row_under-merge_row k row rows))
]

first_of-none : (o : Option ReportRow) → first_of o none ≡ o
first_of-none none = refl
first_of-none (some r) = refl

first_of_if :
    (last : Option ReportRow) (same : Bool) (row : ReportRow) (before : Option ReportRow)
    → first_of last (if same then some row else before)
      ≡ first_of (first_of last (if same then some row else none)) before
first_of_if (some r) same row before = refl
first_of_if none true row before = refl
first_of_if none false row before = refl

row_under-merge_rows :
    (k : Key) (merged rows : List ReportRow)
    → row_under k (merge_rows merged rows) ≡ first_of (last_under k rows) (row_under k merged)
unfolding merge_rows last_under
row_under-merge_rows k merged [] = refl
row_under-merge_rows k merged (row ∷ rows) =
    row_under-merge_rows k (merge_row row merged) rows
    ∙ ap (first_of (last_under k rows)) (row_under-merge_row k row merged)
    ∙ first_of_if (last_under k rows) (same_key (key_of row) k) row (row_under k merged)

key_compare_self : (k : Key) → key_compare k k ≡ Ordering.eq
unfolding key_compare
key_compare_self (a, b) = rw (compare_refl a, compare_refl b) refl

-- A key that comes later is another key.
pub later_apart : (j k : Key) → key_compare j k ≡ Ordering.gt → same_key k j ≡ false
later_apart j k h = elim (Bool-cases (same_key k j)) [
  | inr other ↦ other
  | inl same ↦ cc (same_key_eq k j same, key_compare_self j, h)
]

module _ (k : Key) (row r : ReportRow) (rows : List ReportRow) where
  row_under-place :
      (o : Ordering)
      → key_compare (key_of row) (key_of r) ≡ o
      → row_under k (insert_row row rows)
        ≡ (if same_key (key_of row) k then some row else row_under k rows)
      → row_under k (place o (row ∷ r ∷ rows) (r ∷ insert_row row rows))
        ≡ (if same_key (key_of row) k then some row else row_under k (r ∷ rows))
  unfolding row_under
  row_under-place Ordering.lt e below = refl
  row_under-place Ordering.eq e below = refl
  row_under-place Ordering.gt e below =
      pass_over k r row (row_under k (insert_row row rows)) (row_under k rows)
        (later_apart (key_of row) (key_of r) e) below

row_under-insert_row :
    (k : Key) (row : ReportRow) (rows : List ReportRow)
    → row_under k (insert_row row rows)
      ≡ (if same_key (key_of row) k then some row else row_under k rows)
unfolding row_under insert_row
row_under-insert_row k row [] = refl
row_under-insert_row k row (r ∷ rows) =
    row_under-place k row r rows (key_compare (key_of row) (key_of r)) refl
      (row_under-insert_row k row rows)

pub row_under-sorted_rows :
    (k : Key) (rows : List ReportRow) → row_under k (sorted_rows rows) ≡ row_under k rows
unfolding row_under sorted_rows
row_under-sorted_rows k [] = refl
row_under-sorted_rows k (r ∷ rows) =
    row_under-insert_row k r (sorted_rows rows)
    ∙ ap (λ x. if same_key (key_of r) k then some r else x) (row_under-sorted_rows k rows)

-- The row that a report has under a key is the last of the new results under it, or else the last
-- that the report before has.
pub row_under-combined :
    (existing results : List ReportRow) (k : Key)
    → row_under k (combined existing results)
      ≡ first_of (last_under k results) (last_under k existing)
unfolding combined row_under
row_under-combined existing results k =
    row_under-sorted_rows k (merge_rows (merge_rows [] existing) results)
    ∙ row_under-merge_rows k (merge_rows [] existing) results
    ∙ ap (first_of (last_under k results))
        (row_under-merge_rows k [] existing ∙ first_of-none (last_under k existing))
