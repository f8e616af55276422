-- ===== src/Governance/Drift/Patterns.antt =====
-- `_ADVERSARIAL_PATTERNS` of src/rif_runtime/governance/drift.py, each regular expression as a search. A
-- pattern is tried at every place of the text in lower case, with what precedes the place: the
-- patterns that name letters ignore case, and the others name none.
pub mod Plain
use Prim.Native.Char.{Char, code}
use Prim.Native.String
use mandare.Prelude.{
  ℕ, String, Bool, true, false, not, ◌&&◌, ◌||◌, Option, none, some, List, [], ◌∷◌, any, ltb, leb,
  eqb, lower, same_char, if◌then◌else◌, ◌≡◌, refl,
}

-- `\w`, of ASCII
abbrev pub is_word : Char → Bool
is_word c =
    let n = code c in
    leb 48 n && leb n 57 || leb 65 n && leb n 90 || leb 97 n && leb n 122 || eqb n 95

-- `\s`, of ASCII
abbrev pub is_white : Char → Bool
is_white c = let n = code c in leb 9 n && leb n 13 || leb 28 n && leb n 32

-- The text begins with such a character.
unfoldable pub begins : (Char → Bool) → String → Bool
begins p String.[] = false
begins p (String.◌∷◌ c s) = p c

-- What follows a prefix, where the text has it.
unfoldable pub after : String → String → Option String
after String.[] s = some s
after (String.◌∷◌ c p) String.[] = none
after (String.◌∷◌ c p) (String.◌∷◌ d s) =
    let rest = after p s in if same_char c d then rest else none

-- `\s*`
unfoldable pub skip_white : String → String
skip_white String.[] = String.[]
skip_white (String.◌∷◌ c s) = let rest = skip_white s in if is_white c then rest else String.◌∷◌ c s

-- One of the words is here, and what follows it passes the test.
unfoldable pub one_of : List String → (String → Bool) → String → Bool
unfolding after
one_of [] test s = false
one_of (w ∷ ws) test s =
    let rest = one_of ws test s in (elim (after w s) [ none ↦ false | some t ↦ test t ]) || rest

-- `\b` after a word
abbrev pub ends_word : String → Bool
ends_word s = not (begins is_word s)

abbrev pub sql_words : List String
sql_words =
    "select" ∷ "insert" ∷ "update" ∷ "delete" ∷ "drop" ∷ "union" ∷ "exec" ∷ "execute" ∷ "truncate"
    ∷ []

-- `\b(select|...)\b\s+`
unfoldable pub sql_at : Bool → String → Bool
unfolding one_of begins
sql_at in_word s = not in_word && one_of sql_words (begins is_white) s

-- `\b(?:sleep|benchmark|pg_sleep)\s*\(|\bwaitfor\s+delay\b`
unfoldable pub timing_at : Bool → String → Bool
unfolding one_of begins skip_white
timing_at in_word s =
    not in_word
    && (one_of ("sleep" ∷ "benchmark" ∷ "pg_sleep" ∷ [])
          (λ t. begins (λ c. same_char c "(") (skip_white t)) s
        || one_of ("waitfor" ∷ [])
            (λ t. begins is_white t && one_of ("delay" ∷ []) ends_word (skip_white t)) s)

abbrev pub dots : List String
dots = "../" ∷ "..\\" ∷ []

-- Two dots and a slash, before the end of the line.
unfoldable pub dots_on_line : String → Bool
unfolding one_of
dots_on_line String.[] = false
dots_on_line (String.◌∷◌ c s) =
    let later = dots_on_line s in
    one_of dots (λ t. true) (String.◌∷◌ c s) || (not (eqb (code c) 10) && later)

-- `(\.\.[\\/]).*(\.\.[\\/])`
unfoldable pub traversal_at : Bool → String → Bool
unfolding one_of dots_on_line
traversal_at in_word s = one_of dots dots_on_line s

-- `\b(?:cmd\.exe|powershell)\b|/bin/(?:sh|bash|zsh)\b`
unfoldable pub shell_at : Bool → String → Bool
unfolding one_of begins
shell_at in_word s =
    not in_word && one_of ("cmd.exe" ∷ "powershell" ∷ []) ends_word s
    || one_of ("/bin/sh" ∷ "/bin/bash" ∷ "/bin/zsh" ∷ []) ends_word s

-- `[|;]\s+\w|`\s*\w`, with a backtick
unfoldable pub chain_at : Bool → String → Bool
unfolding one_of begins skip_white
chain_at in_word s =
    one_of ("|" ∷ ";" ∷ []) (λ t. begins is_white t && begins is_word (skip_white t)) s
    || one_of ("`" ∷ []) (λ t. begins is_word (skip_white t)) s

-- `<\s*script\b`
unfoldable pub script_at : Bool → String → Bool
unfolding one_of begins skip_white
script_at in_word s = one_of ("<" ∷ []) (λ t. one_of ("script" ∷ []) ends_word (skip_white t)) s

-- `pattern.search(text)`, from a place on
unfoldable pub search_from : (Bool → String → Bool) → Bool → String → Bool
search_from at in_word String.[] = at in_word String.[]
search_from at in_word (String.◌∷◌ c s) =
    let later = search_from at (is_word c) s in at in_word (String.◌∷◌ c s) || later

abbrev pub adversarial_patterns : List (Bool → String → Bool)
adversarial_patterns = sql_at ∷ timing_at ∷ traversal_at ∷ shell_at ∷ chain_at ∷ script_at ∷ []

-- `any(p.search(text) for p in _ADVERSARIAL_PATTERNS)`
unfoldable pub is_adversarial : String → Bool
unfolding search_from sql_at timing_at traversal_at shell_at chain_at script_at
is_adversarial text = any (λ at. search_from at false (lower text)) adversarial_patterns

patterns_run :
    any is_adversarial
      ("/api/select" ∷ "/a/../b" ∷ "/?a=1;b=2" ∷ "/items/sleep" ∷ "/run/bin/shell" ∷ [])
    ≡ false
unfolding is_adversarial lower
patterns_run = refl
