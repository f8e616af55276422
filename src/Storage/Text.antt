-- ===== src/Storage/Text.antt =====
-- `HashChainedJsonlStore.read_all` of src/rif_runtime/storage/jsonl.py on the text of a file.
-- `json.loads` is a parameter; `none` stands for its exception.
use Prim.Native.Char.{Char, code}
use mandare.Prelude.{
  ℕ, String, Bool, true, false, ◌&&◌, ◌||◌, ◌≡◌, ◌≢◌, refl, ◌∙◌, ap, Bool-cases, inl, inr, Option,
  none, some, List, [], ◌∷◌, leb, eqb, if◌then◌else◌, Result, ok, err, value_error, ◌>>=◌,
  >>=-eq-ok,
}
use mandare.Values.{Value}
use mandare.Storage.{Line, row, breaks, is_separator, read_line, read_all}

-- A character that `str.splitlines` breaks at.
abbrev pub is_break : ℕ → Bool
is_break c = leb 10 c && leb c 13 || leb 28 c && leb c 30 || is_separator c

-- `s + t`
abbrev pub join : String → String → String
join String.[] t = t
join (String.◌∷◌ c s) t = String.◌∷◌ c (join s t)

unfoldable pub has_break : String → Bool
has_break String.[] = false
has_break (String.◌∷◌ c s) = is_break (code c) || has_break s

push_char : Char → List String → List String
push_char c [] = String.◌∷◌ c "" ∷ []
push_char c (s ∷ ss) = String.◌∷◌ c s ∷ ss

-- `text.splitlines()`, but for blank pieces, which the reader skips: the one between "\r" and "\n", and
-- the one after the last break.
unfoldable pub splitlines : String → List String
unfolding push_char
splitlines String.[] = "" ∷ []
splitlines (String.◌∷◌ c s) =
    let rest = splitlines s in if is_break (code c) then "" ∷ rest else push_char c rest

-- `not line.strip()`, where the only white space beyond ASCII is that of the breaks
unfoldable pub is_blank : String → Bool
is_blank String.[] = true
is_blank (String.◌∷◌ c s) =
    (is_break (code c) || eqb (code c) 9 || eqb (code c) 31 || eqb (code c) 32) && is_blank s

module _ (loads : String → Option Value) where
  unfoldable pub read_pieces : List String → Result (List Value)
  unfolding is_blank
  read_pieces [] = ok []
  read_pieces (piece ∷ pieces) =
      let rest = read_pieces pieces in
      if is_blank piece
      then rest
      else elim (loads piece) [ none ↦ err value_error | some v ↦ (do vs ← rest; ok (v ∷ vs)) ]

  -- `read_all`, of the text of the file
  unfoldable pub read_text : String → Result (List Value)
  unfolding read_pieces splitlines
  read_text text = read_pieces (splitlines text)

  -- What holds of the text that `json.dumps(..., ensure_ascii=False)` writes for a dict: it opens with a
  -- brace, it is read back, no part of it from its start on is JSON, and the only breaks in it are the
  -- separators of the texts of the dict, since it escapes every control character.
  pub record IsJson (body : String) (v : Value) : Type 0 where
    pub back : loads (String.◌∷◌ "{" body) ≡ some v
    pub no_part : (s t : String) → join s t ≡ String.◌∷◌ "{" body → t ≢ "" → loads s ≡ none
    pub same_breaks : has_break body ≡ breaks v

whole_piece :
    (d rest : String)
    → has_break d ≡ false
    → splitlines (join d (String.◌∷◌ "\n" rest)) ≡ d ∷ splitlines rest
unfolding splitlines has_break
whole_piece String.[] rest h = refl
whole_piece (String.◌∷◌ c d) rest h = elim (Bool-cases (is_break (code c))) [
  | inl cut ↦ cc (rw cut at h)
  | inr kept ↦ rw (kept, whole_piece d rest (rw kept at h)) refl
]

-- Where a text is cut, the first piece is a part of it.
first_piece :
    (d rest : String)
    → has_break d ≡ true
    → (p t : String) × (ps : List String) × (splitlines (join d rest) ≡ p ∷ ps)
      × (join p t ≡ d)
      × (t ≢ "")
unfolding splitlines has_break
first_piece String.[] rest h = cc
first_piece (String.◌∷◌ c d) rest h = elim (Bool-cases (is_break (code c))) [
  | inl cut ↦ ("", String.◌∷◌ c d, splitlines (join d rest), rw cut refl, refl, λ e. cc)
  | inr kept ↦
      let (p, t, ps, pieces, joined, more) = first_piece d rest (rw kept at h) in
      (String.◌∷◌ c p, t, ps, rw (kept, pieces) refl, ap (λ s. String.◌∷◌ c s) joined, more)
]

-- The text of rows, each with what follows its brace, and then a further text.
abbrev pub text_onto : List (String × Value) → String → String
text_onto [] rest = rest
text_onto ((body, v) ∷ rows) rest =
    join (String.◌∷◌ "{" body) (String.◌∷◌ "\n" (text_onto rows rest))

abbrev pub lines_of : List (String × Value) → List Line
lines_of [] = []
lines_of ((body, v) ∷ rows) = row v ∷ lines_of rows

module _ (loads : String → Option Value) where
  -- The text of a row, as a line of a file, is read as `read_line` says.
  read_text-row :
      (body rest : String) (v : Value)
      → IsJson loads body v
      → read_text loads (join (String.◌∷◌ "{" body) (String.◌∷◌ "\n" rest))
        ≡ (read_line v >>= λ w. read_text loads rest >>= λ ws. ok (w ∷ ws))
  unfolding read_text read_line
  read_text-row body rest v json = elim (Bool-cases (breaks v)) [
    | inr whole ↦
        rw (whole, whole_piece body rest (json.same_breaks ∙ whole), push_char, json.back) refl
    | inl torn ↦
        let (p, t, ps, pieces, joined, more) =
          first_piece body (String.◌∷◌ "\n" rest) (json.same_breaks ∙ torn) in
        rw
          (
            torn,
            pieces,
            push_char,
            json.no_part (String.◌∷◌ "{" p) t (ap (λ s. String.◌∷◌ "{" s) joined) more,
          )
          refl
  ]

  abbrev pub AreJson : List (String × Value) → Type 0
  AreJson [] = Unit
  AreJson ((body, v) ∷ rows) = IsJson loads body v × AreJson rows

  -- Where each row is written as `json.dumps` documents it, a read of the text of a file is what
  -- `read_all` answers, or raises, of its lines: in particular it raises where a text of a row has a
  -- line separator.
  pub read_text-eq-read_all :
      (rows : List (String × Value))
      → AreJson rows
      → read_text loads (text_onto rows "") ≡ read_all (lines_of rows)
  unfolding read_all
  read_text-eq-read_all [] json = unfold read_text in refl
  read_text-eq-read_all ((body, v) ∷ rows) json =
      rw (read_text-row body (text_onto rows "") v json.0, read_text-eq-read_all rows json.1) refl

  -- Where a text raises, it raises after readable rows too.
  pub read_text_stuck :
      (rows : List (String × Value)) (rest : String) (vs : List Value)
      → AreJson rows
      → read_all (lines_of rows) ≡ ok vs
      → read_text loads rest ≡ err value_error
      → read_text loads (text_onto rows rest) ≡ err value_error
  unfolding read_all
  read_text_stuck [] rest vs json readable raised = raised
  read_text_stuck ((body, v) ∷ rows) rest vs json readable raised =
      let (x, read, e) =
        >>=-eq-ok (read_line v) (λ y. do ys ← read_all (lines_of rows); ok (y ∷ ys)) readable in
      let (ws, more, made) = >>=-eq-ok (read_all (lines_of rows)) (λ ys. ok (x ∷ ys)) e in
      rw
        (
          read_text-row body (text_onto rows rest) v json.0,
          read,
          read_text_stuck rows rest ws json.1 more raised,
        )
        refl

  -- A row with a separator raises, whatever stands after it.
  pub read_text_torn :
      (body rest : String) (v : Value)
      → IsJson loads body v
      → breaks v ≡ true
      → read_text loads (join (String.◌∷◌ "{" body) (String.◌∷◌ "\n" rest)) ≡ err value_error
  unfolding read_line
  read_text_torn body rest v json torn = read_text-row body rest v json ∙ rw torn refl
