-- ===== src/Storage/Chain/Window.antt =====
-- `_tail_hash` of src/rif_runtime/storage/jsonl.py as it reads the bytes of the file: from the end, in
-- a window that doubles until it holds a whole line that is not blank, or the whole file.
use mandare.Prelude.{
  ℕ, zero, suc, ◌-◌, ◌*◌, String, Bool, true, false, ◌&&◌, ◌||◌, eqb, leb, Option, none, some, List,
  [], ◌∷◌, length, if◌then◌else◌, Result, ok, err, value_error, ◌>>=◌,
}
use mandare.Values.{Value, Host, get_field, as_dict}
use mandare.Audit.{genesis_hash}
use mandare.Storage.{Line, blank, damaged, row}
use mandare.Storage.Chain.{chain_key, envelope_hash}

abbrev pub Bytes : Type 0
Bytes = List ℕ

-- `handle.read` from a position to the end
unfoldable pub drop : ℕ → Bytes → Bytes
drop zero bytes = bytes
drop (suc n) [] = []
drop (suc n) (b ∷ bytes) = drop n bytes

-- `x + lines[0]` in place of the first line
abbrev pub extend : ℕ → List Bytes → List Bytes
extend b [] = (b ∷ []) ∷ []
extend b (l ∷ ls) = (b ∷ l) ∷ ls

-- `bytes.split(b"\n")`
unfoldable pub split_lines : Bytes → List Bytes
split_lines [] = [] ∷ []
split_lines (b ∷ bytes) =
    let rest = split_lines bytes in if eqb b 10 then [] ∷ rest else extend b rest

abbrev pub tail_lines : List Bytes → List Bytes
tail_lines [] = []
tail_lines (l ∷ ls) = ls

-- `not line.strip()`
unfoldable pub is_blank : Bytes → Bool
is_blank [] = true
is_blank (b ∷ bytes) = (leb 9 b && leb b 13 || eqb b 32) && is_blank bytes

-- `next((line for line in reversed(lines) if line.strip()), None)`
unfoldable pub last_filled : List Bytes → Option Bytes
unfolding is_blank
last_filled [] = none
last_filled (l ∷ ls) = elim (last_filled ls) [
  | some m ↦ some m
  | none ↦ if is_blank l then none else some l
]

-- The whole lines of the slice that begins at `start`.
abbrev pub complete_lines : ℕ → Bytes → List Bytes
complete_lines start bytes =
    let lines = split_lines (drop start bytes) in if eqb start 0 then lines else tail_lines lines

-- What one round comes to: a line was found, or this was the whole file, or a later round decides.
abbrev pub round_of : Bool → Option (Option Bytes) → Option Bytes → Option (Option Bytes)
round_of whole later (some last) = some (some last)
round_of true later none = some none
round_of false later none = later

-- The loop, on fuel: `none` where the fuel runs out.
unfoldable pub search_tail : ℕ → ℕ → Bytes → Option (Option Bytes)
unfolding split_lines drop last_filled
search_tail zero window bytes = none
search_tail (suc fuel) window bytes =
    let start = length bytes - window in
    let later = search_tail fuel (window * 2) bytes in
    round_of (eqb start 0) later (last_filled (complete_lines start bytes))

abbrev pub tail_window : ℕ
tail_window = 65536

-- The hash of the line that the search found: `parse` is `json.loads(line.decode("utf-8"))`, `none` where
-- that raises.
abbrev pub hash_of_last : Host → (Bytes → Option Value) → Option Bytes → Result String
hash_of_last host parse none = ok genesis_hash
hash_of_last host parse (some last) = elim (parse last) [
  | none ↦ err value_error
  | some v ↦ as_dict v >>= λ fs. ok (envelope_hash host (get_field chain_key fs))
]

abbrev pub answer_of :
    Host → (Bytes → Option Value) → Option (Option Bytes) → Option (Result String)
answer_of host parse none = none
answer_of host parse (some found) = some (hash_of_last host parse found)

-- `_tail_hash`: as many rounds as the file has bytes, and one more, are enough.
unfoldable pub tail_hash_bytes : Host → (Bytes → Option Value) → Bytes → Option (Result String)
unfolding search_tail
tail_hash_bytes host parse bytes =
    answer_of host parse (search_tail (suc (length bytes)) tail_window bytes)

-- A line as the other modules have it.
abbrev pub line_of : (Bytes → Option Value) → Bytes → Line
line_of parse l = if is_blank l then blank else elim (parse l) [ none ↦ damaged | some v ↦ row v ]
