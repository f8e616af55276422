-- ===== src/Evals/Report/Ordered.antt =====
-- The order of the rows of a report of src/rif-evals/code_refinement_mst/runners/run_session.py.
use Prim.Native.Nat.{compare as compare_ℕ, Ordering}
use Prim.Native.Char.{code}
use Prim.Native.String.compare
use Prim.Native.String.{compare, then as and_then}
use text.Mathlib.TextEquality.{path_by_compare}
use mandare.Prelude.{
  ℕ, String, ◌≡◌, refl, sym, ap, ◌∙◌, inl, inr, true, false, Bool-cases, none, List, [], ◌∷◌, arith,
}
use mandare.Evals.Report.{
  ReportRow, Key, key_of, same_key, key_compare, merge_row, merge_rows, insert_row, sorted_rows,
  combined, place,
}
use mandare.Evals.Report.Latest.{
  row_under, row_under-merge_row, row_under-sorted_rows, same_key_eq, same_key_refl, later_apart,
  first_of, last_under, row_under-combined,
}

flip : Ordering → Ordering
flip Ordering.lt = Ordering.gt
flip Ordering.eq = Ordering.eq
flip Ordering.gt = Ordering.lt

flip_then : (o p : Ordering) → and_then (flip o) (flip p) ≡ flip (and_then o p)
unfolding flip
flip_then Ordering.lt p = refl
flip_then Ordering.eq p = refl
flip_then Ordering.gt p = refl

compare_ℕ_swapped : (m n : ℕ) → compare_ℕ n m ≡ flip (compare_ℕ m n)
unfolding flip
compare_ℕ_swapped m n = ground arith

compare_swapped : (s t : String) → compare t s ≡ flip (compare s t)
unfolding flip
compare_swapped String.[] String.[] = refl
compare_swapped String.[] (String.◌∷◌ d t) =
    compare.cons-nil d t ∙ ap flip (sym (compare.nil-cons d t))
compare_swapped (String.◌∷◌ c s) String.[] =
    compare.nil-cons c s ∙ ap flip (sym (compare.cons-nil c s))
compare_swapped (String.◌∷◌ c s) (String.◌∷◌ d t) =
    let o = compare_ℕ (code c) (code d) in
    compare.cons-cons d c t s
    ∙ ap (λ x. and_then x (compare t s)) (compare_ℕ_swapped (code c) (code d))
    ∙ ap (and_then (flip o)) (compare_swapped s t)
    ∙ flip_then o (compare s t)
    ∙ ap flip (sym (compare.cons-cons c d s t))

key_compare_swapped : (j k : Key) → key_compare k j ≡ flip (key_compare j k)
unfolding key_compare
key_compare_swapped (a, b) (c, d) =
    ap (λ x. and_then x (compare d b)) (compare_swapped a c)
    ∙ ap (and_then (flip (compare a c))) (compare_swapped b d)
    ∙ flip_then (compare a c) (compare b d)

then_eq : (o p : Ordering) → and_then o p ≡ Ordering.eq → (o ≡ Ordering.eq) × (p ≡ Ordering.eq)
then_eq Ordering.eq p h = (refl, h)
then_eq Ordering.lt p h = cc
then_eq Ordering.gt p h = cc

-- Keys that compare as equal are one key.
key_compare_eq : (j k : Key) → key_compare j k ≡ Ordering.eq → same_key k j ≡ true
unfolding key_compare
key_compare_eq (a, b) (c, d) h =
    let (p, q) = then_eq (compare a c) (compare b d) h in
    rw (path_by_compare a c p, path_by_compare b d q) (same_key_refl (c, d))

-- The row stands before the first of the rows.
abbrev Above : ReportRow → List ReportRow → Type 0
Above row [] = Unit
Above row (r ∷ rows) = key_compare (key_of row) (key_of r) ≡ Ordering.lt

-- The keys increase.
abbrev pub IsIncreasing : List ReportRow → Type 0
IsIncreasing [] = Unit
IsIncreasing (r ∷ rows) = Above r rows × IsIncreasing rows

-- No two rows have one key.
abbrev IsDistinct : List ReportRow → Type 0
IsDistinct [] = Unit
IsDistinct (r ∷ rows) = (row_under (key_of r) rows ≡ none) × IsDistinct rows

module _ (row r : ReportRow) (rows : List ReportRow) where
  Above-place :
      (o : Ordering)
      → key_compare (key_of row) (key_of r) ≡ o
      → (q : ReportRow) → key_compare (key_of q) (key_of row) ≡ Ordering.lt
      → key_compare (key_of q) (key_of r) ≡ Ordering.lt
      → Above q (place o (row ∷ r ∷ rows) (r ∷ insert_row row rows))
  Above-place Ordering.lt e q below_row below_r = below_row
  Above-place Ordering.eq e q below_row below_r = below_row
  Above-place Ordering.gt e q below_row below_r = below_r

Above-insert_row :
    (q row : ReportRow) (rows : List ReportRow)
    → key_compare (key_of q) (key_of row) ≡ Ordering.lt
    → Above q rows
    → Above q (insert_row row rows)
unfolding insert_row
Above-insert_row q row [] below above = below
Above-insert_row q row (r ∷ rows) below above =
    Above-place row r rows (key_compare (key_of row) (key_of r)) refl q below above

module _ (row r : ReportRow) (rows : List ReportRow) where
  IsIncreasing-place :
      (o : Ordering)
      → key_compare (key_of row) (key_of r) ≡ o
      → row_under (key_of row) (r ∷ rows) ≡ none
      → IsIncreasing (r ∷ rows)
      → (row_under (key_of row) rows ≡ none → IsIncreasing (insert_row row rows))
      → IsIncreasing (place o (row ∷ r ∷ rows) (r ∷ insert_row row rows))
  unfolding row_under flip
  IsIncreasing-place Ordering.lt e new ordered below = (e, ordered)
  IsIncreasing-place Ordering.eq e new ordered below =
      cc (rw (key_compare_eq (key_of row) (key_of r) e) at new)
  IsIncreasing-place Ordering.gt e new ordered below =
      let apart = later_apart (key_of row) (key_of r) e in
      (
        Above-insert_row r row rows (key_compare_swapped (key_of row) (key_of r) ∙ ap flip e)
            ordered.0,
        below (rw apart at new),
      )

IsIncreasing-insert_row :
    (row : ReportRow) (rows : List ReportRow)
    → row_under (key_of row) rows ≡ none
    → IsIncreasing rows
    → IsIncreasing (insert_row row rows)
unfolding insert_row
IsIncreasing-insert_row row [] new ordered = (tt, tt)
IsIncreasing-insert_row row (r ∷ rows) new ordered =
    IsIncreasing-place row r rows (key_compare (key_of row) (key_of r)) refl new ordered
      (λ new'. IsIncreasing-insert_row row rows new' ordered.1)

IsIncreasing-sorted_rows :
    (rows : List ReportRow) → IsDistinct rows → IsIncreasing (sorted_rows rows)
unfolding sorted_rows
IsIncreasing-sorted_rows [] distinct = tt
IsIncreasing-sorted_rows (r ∷ rows) distinct =
    IsIncreasing-insert_row r (sorted_rows rows)
      (row_under-sorted_rows (key_of r) rows ∙ distinct.0)
      (IsIncreasing-sorted_rows rows distinct.1)

same_key_sym : (j k : Key) → same_key j k ≡ false → same_key k j ≡ false
same_key_sym j k h = elim (Bool-cases (same_key k j)) [
  | inr other ↦ other
  | inl same ↦ cc (same_key_eq k j same, same_key_refl j, h)
]

IsDistinct-merge_row :
    (row : ReportRow) (rows : List ReportRow) → IsDistinct rows → IsDistinct (merge_row row rows)
unfolding merge_row row_under
IsDistinct-merge_row row [] distinct = (refl, tt)
IsDistinct-merge_row row (r ∷ rows) distinct =
    elim (Bool-cases (same_key (key_of r) (key_of row))) [
      | inl same ↦ rw same (
        ap (λ k. row_under k rows) (sym (same_key_eq (key_of r) (key_of row) same)) ∙ distinct.0,
        distinct.1,
      )
      | inr apart ↦ rw apart (
        row_under-merge_row (key_of r) row rows
            ∙ rw (same_key_sym (key_of r) (key_of row) apart) distinct.0,
        IsDistinct-merge_row row rows distinct.1,
      )
    ]

IsDistinct-merge_rows :
    (merged rows : List ReportRow) → IsDistinct merged → IsDistinct (merge_rows merged rows)
unfolding merge_rows
IsDistinct-merge_rows merged [] distinct = distinct
IsDistinct-merge_rows merged (row ∷ rows) distinct =
    IsDistinct-merge_rows (merge_row row merged) rows (IsDistinct-merge_row row merged distinct)

-- A report has its rows in the increasing order of their keys, so that no key has two; and the row
-- under a key is the last of the new results under it, or else the last of the report before.
pub combined-IsIncreasing :
    (existing results : List ReportRow) (k : Key)
    → IsIncreasing (combined existing results)
      × (row_under k (combined existing results)
          ≡ first_of (last_under k results) (last_under k existing))
unfolding combined
combined-IsIncreasing existing results k = (
  IsIncreasing-sorted_rows (merge_rows (merge_rows [] existing) results) (
      IsDistinct-merge_rows (merge_rows [] existing) results
        (IsDistinct-merge_rows [] existing tt)),
  row_under-combined existing results k,
)
