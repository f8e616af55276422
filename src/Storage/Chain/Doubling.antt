-- ===== src/Storage/Chain/Doubling.antt =====
-- Why the window of `_tail_hash` of src/rif_runtime/storage/jsonl.py is large enough in the end.
use mandare.Prelude.{
  ℕ, zero, suc, ◌-◌, ◌*◌, ◌≤◌, ◌<◌, String, ◌≡◌, refl, sym, ◌∙◌, ap, true, false, Bool-cases, eqb,
  inl, inr, Option, none, some, Option-cases, List, [], ◌∷◌, ◌++◌, map, length, arith, Result, ok,
  err, value_error, ◌>>=◌,
}
use mandare.Values.{Value, Host, get_field, as_dict}
use mandare.Audit.{genesis_hash}
use mandare.Storage.Chain.{chain_key, last_line, envelope_hash, tail_hash}
use mandare.Storage.Chain.Window.{
  Bytes, drop, split_lines, tail_lines, is_blank, last_filled, complete_lines, search_tail,
  tail_window, tail_hash_bytes, line_of, hash_of_last, answer_of, round_of,
}

drop-suffix : (n : ℕ) (bytes : Bytes) → (front : Bytes) × (bytes ≡ front ++ drop n bytes)
unfolding drop
drop-suffix zero bytes = ([], refl)
drop-suffix (suc n) [] = ([], refl)
drop-suffix (suc n) (b ∷ bytes) =
    let (front, e) = drop-suffix n bytes in (b ∷ front, ap (λ bs. b ∷ bs) e)

split_lines-filled :
    (bytes : Bytes) → (l : Bytes) × (ls : List Bytes) × (split_lines bytes ≡ l ∷ ls)
unfolding split_lines
split_lines-filled [] = ([], [], refl)
split_lines-filled (b ∷ bytes) = elim (Bool-cases (eqb b 10)) [
  | inl newline ↦ ([], split_lines bytes, rw newline refl)
  | inr other ↦ let (l, ls, e) = split_lines-filled bytes in (b ∷ l, ls, rw (other, e) refl)
]

-- The lines of the end of a file, but for the first, are the last lines of the file.
split_lines-append :
    (front bytes : Bytes)
    → (l : Bytes) × (ls : List Bytes) × (split_lines (front ++ bytes)
        ≡ (l ∷ ls) ++ tail_lines (split_lines bytes))
unfolding split_lines
split_lines-append [] bytes = let (l, ls, e) = split_lines-filled bytes in (l, [], rw e refl)
split_lines-append (b ∷ front) bytes =
    let (l, ls, e) = split_lines-append front bytes in
    elim (Bool-cases (eqb b 10)) [
      | inl newline ↦ ([], l ∷ ls, rw (newline, e) refl)
      | inr other ↦ (b ∷ l, ls, rw (other, e) refl)
    ]

last_filled-append :
    (ls ms : List Bytes) (m : Bytes) → last_filled ms ≡ some m → last_filled (ls ++ ms) ≡ some m
unfolding last_filled
last_filled-append [] ms m e = e
last_filled-append (l ∷ ls) ms m e = rw (last_filled-append ls ms m e) refl

zero_of : (n : ℕ) → eqb n 0 ≡ true → n ≡ 0
zero_of n h = ground arith

nonzero_of : (n : ℕ) → eqb n 0 ≡ false → 0 < n
nonzero_of n h = ground arith

complete_lines-whole :
    (start : ℕ) (bytes : Bytes) → start ≡ 0 → complete_lines start bytes ≡ split_lines bytes
unfolding drop
complete_lines-whole start bytes h = rw h refl

-- What the window shows is the last line of the file that is not blank.
complete_lines-last :
    (start : ℕ) (bytes l : Bytes)
    → last_filled (complete_lines start bytes) ≡ some l
    → last_filled (split_lines bytes) ≡ some l
complete_lines-last start bytes l e = elim (Bool-cases (eqb start 0)) [
  | inl whole ↦ ap last_filled (sym (complete_lines-whole start bytes (zero_of start whole))) ∙ e
  | inr part ↦
      let (front, cut) = drop-suffix start bytes in
      let (h, hs, split) = split_lines-append front (drop start bytes) in
      let lines : split_lines bytes ≡ (h ∷ hs) ++ tail_lines (split_lines (drop start bytes)) =
        ap split_lines cut ∙ split in
      rw lines (last_filled-append (h ∷ hs) _ l (rw part at e))
]

-- With more rounds than there are bytes before the window, the search ends, and it ends at the last
-- line of the file that is not blank.
pub search_tail-last_filled :
    (fuel window : ℕ) (bytes : Bytes)
    → 1 ≤ window
    → length bytes - window < fuel
    → search_tail fuel window bytes ≡ some (last_filled (split_lines bytes))
unfolding search_tail
search_tail-last_filled zero window bytes wide enough = ground (arith, enough)
search_tail-last_filled (suc fuel) window bytes wide enough =
    let start = length bytes - window in
    let later = search_tail fuel (window * 2) bytes in
    elim (Option-cases (last_filled (complete_lines start bytes))) [
      | inr (l, found) ↦
          ap (round_of (eqb start 0) later) found
          ∙ ap some (sym (complete_lines-last start bytes l found))
      | inl nothing ↦ ap (round_of (eqb start 0) later) nothing ∙ elim (Bool-cases (eqb start 0)) [
        | inl whole ↦
            let same = complete_lines-whole start bytes (zero_of start whole) in
            ap (λ w. round_of w later none) whole
            ∙ ap some (sym (ap last_filled (sym same) ∙ nothing))
        | inr part ↦
            let more = nonzero_of start part in
            ap (λ w. round_of w later none) part
            ∙ search_tail-last_filled fuel (window * 2) bytes (omega arith)
                (omega (arith, more, enough))
      ]
    ]

-- The last line of a file, as the model of lines has it.
abbrev parsed : (Bytes → Option Value) → Option Bytes → Option (Option Value)
parsed parse none = none
parsed parse (some l) = some (parse l)

last_line-map :
    (parse : Bytes → Option Value) (ls : List Bytes)
    → last_line (map (line_of parse) ls) ≡ parsed parse (last_filled ls)
unfolding last_line last_filled
last_line-map parse [] = refl
last_line-map parse (l ∷ ls) =
    let rest = last_line-map parse ls in
    elim (Option-cases (last_filled ls)) [
      | inr (m, found) ↦ let more = rw found at rest in rw (more, found) refl
      | inl nothing ↦
          let no_more = rw nothing at rest in
          elim (Bool-cases (is_blank l)) [
            | inl empty ↦ rw (no_more, nothing, line_of, empty) refl
            | inr filled ↦ elim (Option-cases (parse l)) [
              | inl wrong ↦ rw (no_more, nothing, line_of, filled, wrong) refl
              | inr (v, right) ↦ rw (no_more, nothing, line_of, filled, right) refl
            ]
          ]
    ]

-- `tail_hash`, of the last line.
abbrev hash_of : Host → Option (Option Value) → Result String
hash_of host last = elim last [
  | none ↦ ok genesis_hash
  | some none ↦ err value_error
  | some (some v) ↦ as_dict v >>= λ fs. ok (envelope_hash host (get_field chain_key fs))
]

hash_of_last-hash_of :
    (host : Host) (parse : Bytes → Option Value) (last : Option Bytes)
    → hash_of_last host parse last ≡ hash_of host (parsed parse last)
hash_of_last-hash_of host parse none = refl
hash_of_last-hash_of host parse (some l) = elim (Option-cases (parse l)) [
  | inl wrong ↦ rw (hash_of_last, hash_of, parsed, wrong) refl
  | inr (v, right) ↦ rw (hash_of_last, hash_of, parsed, right) refl
]

-- The search through the bytes of a file always ends, within as many rounds as the file has bytes and
-- one more, and `_tail_hash` then answers, or raises, what `tail_hash` does of the lines of the file,
-- which goes by the last line that is not blank.
pub tail_hash_bytes-eq-tail_hash :
    (host : Host) (parse : Bytes → Option Value) (bytes : Bytes)
    → tail_hash_bytes host parse bytes
      ≡ some (tail_hash host (map (line_of parse) (split_lines bytes)))
unfolding tail_hash_bytes tail_hash
tail_hash_bytes-eq-tail_hash host parse bytes =
    let ends =
      search_tail-last_filled (suc (length bytes)) tail_window bytes (omega arith) (omega arith) in
    let last = last_filled (split_lines bytes) in
    let lines = last_line-map parse (split_lines bytes) in
    ap (answer_of host parse) ends
    ∙ ap some (hash_of_last-hash_of host parse last ∙ ap (hash_of host) (sym lines))
