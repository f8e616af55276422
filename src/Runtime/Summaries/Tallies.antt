-- ===== src/Runtime/Summaries/Tallies.antt =====
-- What the counts of src/rif_runtime/storage/jsonl.py and of src/rif_runtime/runtime.py add up to.
use mathlib.Core.Path.{subst}
use mandare.Audit.{genesis_hash}
use mandare.Prelude.{
  ℕ, ◌+◌, ◌≡◌, refl, String, Bool, true, false, Bool-cases, inl, inr, List, [], ◌∷◌, arith, length,
  if◌then◌else◌, ok, Result-cases, >>=-eq-ok, ok_injective, ◌>>=◌, ◌>>◌, raise_if, type_error, not,
  ◌||◌, eqb, All,
}
use mandare.Values.{Value, Fields, dict, as_dict, Host}
use mandare.Graph.{MultiDiGraph}
use mandare.Runtime.State.{Runtime}
use mandare.Storage.{read_plain}
use mandare.Storage.Chain.{
  ChainVerification, RowVerdict, linked, broken, judge_row, verify_rows, verify,
}
use mandare.Runtime.Summaries.{
  hashable, get_or_unknown, Tally, bump, count_onto, count_by, PersistedSummary, summarise,
}

-- The sum of the counts.
abbrev pub total : Tally → ℕ
total [] = 0
total ((v, n) ∷ out) = n + total out

-- A row that can be counted by a field.
pub record IsCountable (key : String) (row : Value) : Type 0 where
  pub fields : Fields
  pub is_dict : row ≡ dict fields
  pub key_ok : hashable (get_or_unknown key fields) ≡ true

module _ (same_key : Value → Value → Bool) where
  total-bump : (v : Value) (out : Tally) → total (bump same_key v out) ≡ total out + 1
  unfolding bump
  total-bump v [] = omega arith
  total-bump v ((k, n) ∷ out) = ground (arith, total-bump v out)

  count_onto_total :
      (key : String) (rows : List Value) (out : Tally)
      → All (IsCountable key) rows
      → (t : Tally) × (count_onto same_key key rows out ≡ ok t)
        × (total t ≡ total out + length rows)
  unfolding count_onto as_dict
  count_onto_total key [] out h = (out, refl, omega arith)
  count_onto_total key (row ∷ rows) out h =
      let c = h.0 in
      let v = get_or_unknown key c.fields in
      let (t, ran, sum) = count_onto_total key rows (bump same_key v out) h.1 in
      (t, rw (c.is_dict) (rw (c.key_ok) ran), omega (arith, sum, total-bump v out))

  -- Where every row is a dict whose value for the field can be a key, the tally returns, and its counts
  -- add up to the number of rows.
  pub count_by_total :
      (key : String) (rows : List Value)
      → All (IsCountable key) rows
      → (t : Tally) × (count_by same_key key rows ≡ ok t) × (total t ≡ length rows)
  unfolding count_by
  count_by_total key rows h =
      let (t, ran, sum) = count_onto_total key rows [] h in (t, ran, omega (arith, sum))

verify_rows_counts :
    (host : Host) (index : ℕ) (previous : String) (chained leading : ℕ) (started : Bool)
    (rows : List Value) (cv : ChainVerification)
    → verify_rows host index previous chained leading started rows ≡ ok cv
    → cv.verified ≡ true
    → cv.chained_rows + cv.unchained_leading ≡ chained + leading + length rows
unfolding verify_rows
verify_rows_counts host index previous chained leading started [] cv e good =
    rw (← ok_injective e) (omega arith)
verify_rows_counts host index previous chained leading started (v ∷ vs) cv e good =
    elim (Result-cases (judge_row host previous started v)) [
      | inr (x, raised) ↦ cc (rw raised at e)
      | inl (linked h, judged) ↦ omega (
        arith,
        verify_rows_counts host (index + 1) h (chained + 1) leading true vs cv (rw judged at e)
            good,
      )
      | inl (RowVerdict.leading, judged) ↦ omega (
        arith,
        verify_rows_counts host (index + 1) previous chained (leading + 1) started vs cv
            (rw judged at e) good,
      )
      | inl (broken, judged) ↦ ground (arith, rw judged at e)
    ]

pub chain_adds_up :
    (host : Host) (rows : List Value) (cv : ChainVerification) (n : ℕ)
    → verify host rows ≡ ok cv
    → n ≡ length rows
    → (not cv.verified || eqb (cv.chained_rows + cv.unchained_leading) n) ≡ true
unfolding verify
chain_adds_up host rows cv n e all = elim (Bool-cases cv.verified) [
  | inr broken_chain ↦ rw broken_chain refl
  | inl good ↦ ground (arith, verify_rows_counts host 0 genesis_hash 0 0 false rows cv e good)
]

module _ (host : Host) (nx : MultiDiGraph) (same_key : Value → Value → Bool) where
  count_onto_sum :
      (key : String) (rows : List Value) (out t : Tally)
      → count_onto same_key key rows out ≡ ok t
      → total t ≡ total out + length rows
  unfolding count_onto
  count_onto_sum key [] out t e = rw (← ok_injective e) (omega arith)
  count_onto_sum key (row ∷ rows) out t e =
      let (fs, read, rest) =
        >>=-eq-ok (as_dict row)
          (λ fs.
            raise_if (if hashable (get_or_unknown key fs) then false else true) type_error
            >> count_onto same_key key rows (bump same_key (get_or_unknown key fs) out))
          e in
      elim (Bool-cases (hashable (get_or_unknown key fs))) [
        | inr refused ↦ cc (rw refused at rest)
        | inl fine ↦ omega (
          arith,
          count_onto_sum key rows (bump same_key (get_or_unknown key fs) out) t (rw fine at rest),
          total-bump same_key (get_or_unknown key fs) out,
        )
      ]

  -- The figures are those of the rows, and the counts add up.
  pub record IsSummaryOf (rows : List Value) (p : PersistedSummary) : Type 0 where
    pub all_rows : p.decisions_total ≡ length rows
    pub by_result : count_by same_key "decision" rows ≡ ok p.decisions_by_result
    pub by_rule : count_by same_key "matched_rule" rows ≡ ok p.decisions_by_rule
    pub results_add_up : total p.decisions_by_result ≡ length rows
    pub rules_add_up : total p.decisions_by_rule ≡ length rows

  abbrev summary_of : List Value → List Value → Tally → Tally → PersistedSummary
  summary_of rows transitions by_result by_rule = record {
    decisions_total = length rows;
    posture_transitions_total = length transitions;
    decisions_by_result = by_result;
    decisions_by_rule = by_rule;
  }

  pub summarise-IsSummaryOf :
      (rows : List Value) (s : Runtime nx.Graph) (p : PersistedSummary)
      → summarise host nx same_key rows s ≡ ok p
      → IsSummaryOf rows p
  unfolding summarise count_by
  summarise-IsSummaryOf rows s p e =
      let tally = λ (key : String). count_by same_key key rows in
      let (ts, read, e1) =
        >>=-eq-ok (read_plain s.posture_history)
          (λ ts.
            tally "decision" >>= λ a. tally "matched_rule" >>= λ b. ok (summary_of rows ts a b))
          e in
      let (a, by_result, e2) =
        >>=-eq-ok (tally "decision")
          (λ a. tally "matched_rule" >>= λ b. ok (summary_of rows ts a b)) e1 in
      let (b, by_rule, e3) =
        >>=-eq-ok (tally "matched_rule") (λ b. ok (summary_of rows ts a b)) e2 in
      subst (IsSummaryOf rows) (ok_injective e3) (record {
        all_rows = refl;
        by_result = by_result;
        by_rule = by_rule;
        results_add_up = omega (arith, count_onto_sum "decision" rows [] a by_result);
        rules_add_up = omega (arith, count_onto_sum "matched_rule" rows [] b by_rule);
      })
