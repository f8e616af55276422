-- ===== src/Storage.antt =====
-- src/rif_runtime/storage/jsonl.py: append-only logs of JSON rows. A file is the list of its lines, as
-- a split at "\n" gives them; a file that is not there has none. The last line ends in "\n" too, as an
-- append leaves it. A line is blank, damaged (no JSON), or a row. An append is one step; `Writers` has
-- its steps and the locks, and `Text` the text of a file.
pub mod Chain
pub mod Writers
pub mod Text
use Prim.Native.Char.{code}
use Prim.Native.Nat.{compare, Ordering}
use Prim.Native.String
use mandare.Prelude.{
  ℕ, String, Bool, true, false, ◌||◌, List, [], ◌∷◌, ◌++◌, eqb, Result, ok, err, value_error, ◌>>=◌,
  if◌then◌else◌,
}
use mandare.Values.{
  Value, null, bool, number, text, datetime, uuid, bytes, seq, set, dict, opaque, Items, nil, cons,
  Fields, end, field, Host,
}

pub data Line : Type 0 where
  blank damaged : Line
  row : Value → Line

-- A character that `str.splitlines` breaks at, and that `json.dumps(..., ensure_ascii=False)` writes
-- as it is: U+0085, U+2028 or U+2029.
abbrev pub is_separator : ℕ → Bool
is_separator c = eqb c 0x85 || eqb c 0x2028 || eqb c 0x2029

pub breaks_text : String → Bool
breaks_text String.[] = false
breaks_text (String.◌∷◌ c s) = is_separator (code c) || breaks_text s

-- Some text of the value has such a character.
unfoldable mutual
  unfolding breaks_text

  pub breaks : Value → Bool
  breaks (dict fs) = breaks_fields fs
  breaks (seq xs) = breaks_items xs
  breaks (text s) = breaks_text s
  breaks _ = false

  pub breaks_items : Items → Bool
  breaks_items nil = false
  breaks_items (cons v xs) = breaks v || breaks_items xs

  pub breaks_fields : Fields → Bool
  breaks_fields end = false
  breaks_fields (field k v fs) = breaks_text k || breaks v || breaks_fields fs

-- `HashChainedJsonlStore.read_all` on one line: `splitlines` cuts a row in two at such a character,
-- and neither part is JSON.
unfoldable pub read_line : Value → Result Value
read_line v = if breaks v then err value_error else ok v

unfoldable pub read_all : List Line → Result (List Value)
unfolding read_line
read_all [] = ok []
read_all (blank ∷ ls) = read_all ls
read_all (damaged ∷ ls) = err value_error
read_all (row v ∷ ls) = do v' ← read_line v; vs ← read_all ls; ok (v' ∷ vs)

-- What `json.dumps(record, default=str)` writes for a value; it escapes every separator.
unfoldable mutual
  pub jsonable : Host → Value → Value
  jsonable host (dict fs) = dict (jsonable_fields host fs)
  jsonable host (seq xs) = seq (jsonable_items host xs)
  jsonable host null = null
  jsonable host (bool b) = bool b
  jsonable host (number n) = number n
  jsonable host (text s) = text s
  jsonable host (datetime t) = text (host.str_of (datetime t))
  jsonable host (uuid s) = text (host.str_of (uuid s))
  jsonable host (bytes b) = text (host.str_of (bytes b))
  jsonable host (set xs) = text (host.str_of (set xs))
  jsonable host opaque = text (host.str_of opaque)

  pub jsonable_items : Host → Items → Items
  jsonable_items host nil = nil
  jsonable_items host (cons v xs) = cons (jsonable host v) (jsonable_items host xs)

  pub jsonable_fields : Host → Fields → Fields
  jsonable_fields host end = end
  jsonable_fields host (field k v fs) = field k (jsonable host v) (jsonable_fields host fs)

-- `JsonlStore.append`
unfoldable pub append_plain : Host → Fields → List Line → List Line
append_plain host record_fields lines = lines ++ row (jsonable host (dict record_fields)) ∷ []

-- `JsonlStore.read_all`, of a file whose rows `append_plain` wrote
unfoldable pub read_plain : List Line → Result (List Value)
read_plain [] = ok []
read_plain (blank ∷ ls) = read_plain ls
read_plain (damaged ∷ ls) = err value_error
read_plain (row v ∷ ls) = do vs ← read_plain ls; ok (v ∷ vs)
