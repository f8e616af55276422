-- ===== src/Storage/Chain/Tail.antt =====
-- The tail that an append of src/rif_runtime/storage/jsonl.py reads back is where verification ends.
use mathlib.Core.Path.{subst}
use mandare.Prelude.{
  ℕ, ◌+◌, String, ◌≡◌, refl, sym, ◌∙◌, ap, Bool, true, false, inl, inr, Option, none, some,
  Option-cases, List, [], ◌∷◌, All, arith, Result, ok, err, Result-cases, >>=-eq-ok, ok_injective,
  ◌>>=◌, value_error,
}
use mandare.Values.{Value, dict, Fields, Host, get_field, as_dict, is_text}
use mandare.Audit.{genesis_hash}
use mandare.Storage.{Line, blank, damaged, row, read_line, read_all}
use mandare.Storage.Chain.{
  chain_key, last_line, envelope_hash, tail_hash, ChainVerification, RowVerdict, linked, leading,
  broken, str_field, link_holds, envelope_of, judge_fields, judge_row, verify_rows, verify,
}
use mandare.Storage.Chain.Verified.{after_all}

-- The hash in the envelope of a row, or genesis.
row_hash : Host → Value → String
row_hash host (dict fs) = envelope_hash host (get_field chain_key fs)
row_hash host _ = genesis_hash

abbrev IsDict : Value → Type 0
IsDict v = (fs : Fields) × (v ≡ dict fs)

-- The hash of the last row, or `p` where there is none.
end_of : Host → String → List Value → String
end_of host p [] = p
end_of host p (v ∷ vs) = end_of host (row_hash host v) vs

-- `_tail_hash`, with `p` in place of genesis for a log without rows.
tail_or : Host → String → List Line → Result String
tail_or host p lines = elim (last_line lines) [
  | none ↦ ok p
  | some none ↦ err value_error
  | some (some v) ↦ do fs ← as_dict v; ok (envelope_hash host (get_field chain_key fs))
]

module _ (host : Host) where
  tail_or-row :
      (p : String) (fs : Fields) (ls : List Line)
      → tail_or host p (row (dict fs) ∷ ls) ≡ tail_or host (row_hash host (dict fs)) ls
  unfolding tail_or last_line row_hash as_dict
  tail_or-row p fs ls = elim (Option-cases (last_line ls)) [
    | inl nothing ↦ rw (nothing, tail_or)
    | inr (m, found) ↦ rw (found, tail_or)
  ]

  tail_or-blank : (p : String) (ls : List Line) → tail_or host p (blank ∷ ls) ≡ tail_or host p ls
  unfolding tail_or last_line
  tail_or-blank p ls = elim (Option-cases (last_line ls)) [
    | inl nothing ↦ rw (nothing, tail_or)
    | inr (m, found) ↦ rw (found, tail_or)
  ]

  read_line-eq : (v w : Value) → read_line v ≡ ok w → v ≡ w
  unfolding read_line
  read_line-eq v w h = ground arith

  tail_or-read_all :
      (p : String) (ls : List Line) (vs : List Value)
      → read_all ls ≡ ok vs
      → All IsDict vs
      → tail_or host p ls ≡ ok (end_of host p vs)
  unfolding read_all end_of
  tail_or-read_all p [] vs h d = unfold tail_or last_line in rw (← ok_injective h)
  tail_or-read_all p (blank ∷ ls) vs h d = tail_or-blank p ls ∙ tail_or-read_all p ls vs h d
  tail_or-read_all p (damaged ∷ ls) vs h d = cc
  tail_or-read_all p (row v ∷ ls) vs h d =
      let (w, read, rest) = >>=-eq-ok (read_line v) (λ x. do xs ← read_all ls; ok (x ∷ xs)) h in
      let (ws, more, made) = >>=-eq-ok (read_all ls) (λ xs. ok (w ∷ xs)) rest in
      let same : w ∷ ws ≡ vs = ok_injective made in
      let (dw, dws) = subst (λ xs. All IsDict xs) (sym same) d in
      let v_is : v ≡ dict dw.0 = read_line-eq v w read ∙ dw.1 in
      subst (λ xs. tail_or host p (row v ∷ ls) ≡ ok (end_of host p xs)) same
        (rw v_is (tail_or-row p dw.0 ls)
          ∙ tail_or-read_all (row_hash host (dict dw.0)) ls ws more dws
          ∙ ap (λ x. ok (end_of host (row_hash host x) ws)) (sym dw.1))

  link_hash :
      (p : String) (fs chain : Fields)
      → envelope_of fs ≡ some chain
      → link_holds host p fs chain ≡ ok true
      → row_hash host (dict fs) ≡ str_field host "current_hash" chain
  unfolding row_hash envelope_of link_holds envelope_hash str_field is_text
  link_hash p fs chain e h = ground arith

  judge_row-IsDict :
      (p : String) (s : Bool) (v : Value) (r : RowVerdict) → judge_row host p s v ≡ ok r → IsDict v
  unfolding judge_row as_dict
  judge_row-IsDict p s (dict fs) r e = (fs, refl)
  judge_row-IsDict p s _ r e = cc

  judge_fields-linked :
      (p : String) (s : Bool) (fs : Fields) (o : Option Fields) (h : String)
      → judge_fields host p s fs o ≡ ok (linked h)
      → (chain : Fields) × (o ≡ some chain)
        × (link_holds host p fs chain ≡ ok true)
        × (str_field host "current_hash" chain ≡ h)
  unfolding judge_fields
  judge_fields-linked p s fs none h e = ground arith
  judge_fields-linked p s fs (some chain) h e = (chain, refl, ground arith, ground arith)

  -- Where verification passes a row, the next row links to the hash in its envelope.
  judge_row-linked :
      (p : String) (s : Bool) (v : Value) (h : String)
      → judge_row host p s v ≡ ok (linked h)
      → row_hash host v ≡ h
  unfolding judge_row as_dict
  judge_row-linked p s (dict fs) h e =
      let (chain, held, holds, hash) = judge_fields-linked p s fs (envelope_of fs) h e in
      link_hash p fs chain held holds ∙ hash
  judge_row-linked p s _ h e = cc

  judge_row-leading :
      (p : String) (s : Bool) (v : Value)
      → judge_row host p s v ≡ ok leading
      → (row_hash host v ≡ genesis_hash) × (s ≡ false)
  unfolding judge_row judge_fields as_dict row_hash envelope_hash envelope_of
  judge_row-leading p s (dict fs) e = ground arith
  judge_row-leading p s _ e = cc

  -- In a log that verifies, the hash that the next row must link to is the one that an append reads
  -- back from the last row; and every row is a dict.
  after_all-end_of :
      (i : ℕ) (p : String) (c l : ℕ) (s : Bool) (vs : List Value) (cv : ChainVerification)
      → verify_rows host i p c l s vs ≡ ok cv
      → cv.verified ≡ true
      → (s ≡ false → p ≡ genesis_hash)
      → (after_all host p s vs ≡ end_of host p vs) × All IsDict vs
  unfolding verify_rows after_all end_of
  after_all-end_of i p c l s [] cv e good fresh = (refl, tt)
  after_all-end_of i p c l s (v ∷ vs) cv e good fresh = elim (Result-cases (judge_row host p s v)) [
    | inr (x, raised) ↦ cc (rw raised at e)
    | inl (broken, judged) ↦ cc (rw judged at e)
    | inl (linked k, judged) ↦
        let (same, dicts) =
          after_all-end_of (i + 1) k (c + 1) l true vs cv (rw judged at e) good (λ q. cc) in
        (
          rw (judged, after_all)
              (same ∙ ap (λ x. end_of host x vs) (sym (judge_row-linked p s v k judged))),
          (judge_row-IsDict p s v (linked k) judged, dicts),
        )
    | inl (leading, judged) ↦
        let (genesis, fresh_start) = judge_row-leading p s v judged in
        let (same, dicts) =
          after_all-end_of (i + 1) p c (l + 1) s vs cv (rw judged at e) good fresh in
        (
          rw (judged, after_all)
              (same ∙ ap (λ x. end_of host x vs) (fresh fresh_start ∙ sym genesis)),
          (judge_row-IsDict p s v leading judged, dicts),
        )
  ]

  -- If a log can be read and verifies, then its tail can be read, and it is where the chain ends.
  pub tail_hash-after_all :
      (lines : List Line) (vs : List Value) (cv : ChainVerification)
      → read_all lines ≡ ok vs
      → verify host vs ≡ ok cv
      → cv.verified ≡ true
      → tail_hash host lines ≡ ok (after_all host genesis_hash false vs)
  unfolding verify tail_hash tail_or
  tail_hash-after_all lines vs cv r e good =
      let (same, dicts) = after_all-end_of 0 genesis_hash 0 0 false vs cv e good (λ q. refl) in
      tail_or-read_all genesis_hash lines vs r dicts ∙ ap ok (sym same)
