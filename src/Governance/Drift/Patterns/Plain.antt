-- ===== src/Governance/Drift/Patterns/Plain.antt =====
-- Texts in which the patterns of src/rif_runtime/governance/drift.py can find little.
use Prim.Native.Char.{Char}
use mandare.Prelude.{
  String, Bool, true, false, not, ◌&&◌, ◌||◌, ◌≡◌, refl, inl, inr, none, some, Option-cases, List,
  [], ◌∷◌, same_char, lower, arith,
}
use mandare.Governance.Drift.Patterns.{
  is_word, is_white, begins, after, skip_white, one_of, ends_word, sql_words, sql_at, timing_at,
  dots_on_line, traversal_at, shell_at, chain_at, script_at, search_from, is_adversarial,
}

-- A letter, a digit, an underscore, a dash or a slash.
abbrev pub is_plain : Char → Bool
is_plain c = is_word c || same_char c "-" || same_char c "/"

unfoldable pub all_plain : String → Bool
all_plain String.[] = true
all_plain (String.◌∷◌ c s) = is_plain c && all_plain s

white_not_plain : (c : Char) → is_plain c ≡ true → is_white c ≡ false
white_not_plain c h = ground arith

bracket_not_plain : (c : Char) → is_plain c ≡ true → same_char c "(" ≡ false
bracket_not_plain c h = ground arith

and_true : (a b : Bool) → (a && b) ≡ true → (a ≡ true) × (b ≡ true)
and_true a b h = ground arith

begins-all_plain :
    (p : Char → Bool) (s : String)
    → ((c : Char) → is_plain c ≡ true → p c ≡ false)
    → all_plain s ≡ true
    → begins p s ≡ false
unfolding begins all_plain
begins-all_plain p String.[] none_is h = refl
begins-all_plain p (String.◌∷◌ c s) none_is h = none_is c (and_true (is_plain c) (all_plain s) h).0

skip_white-all_plain : (s : String) → all_plain s ≡ true → skip_white s ≡ s
unfolding skip_white all_plain
skip_white-all_plain String.[] h = refl
skip_white-all_plain (String.◌∷◌ c s) h =
    rw (white_not_plain c (and_true (is_plain c) (all_plain s) h).0) refl

after-all_plain : (p s t : String) → after p s ≡ some t → all_plain s ≡ true → all_plain t ≡ true
unfolding after all_plain
after-all_plain String.[] s t e h = cc
after-all_plain (String.◌∷◌ c p) String.[] t e h = cc
after-all_plain (String.◌∷◌ c p) (String.◌∷◌ d s) t e h = ground (arith, after-all_plain p s t)

-- No text of the words' kind follows where the test fails on plain texts.
one_of-all_plain :
    (ws : List String) (test : String → Bool) (s : String)
    → ((t : String) → all_plain t ≡ true → test t ≡ false)
    → all_plain s ≡ true
    → one_of ws test s ≡ false
unfolding one_of
one_of-all_plain [] test s fails h = refl
one_of-all_plain (w ∷ ws) test s fails h =
    let later = one_of-all_plain ws test s fails h in
    elim (Option-cases (after w s)) [
      | inl absent ↦ rw (absent, later) refl
      | inr (t, found) ↦ rw (found, fails t (after-all_plain w s t found h), later) refl
    ]

-- A word that begins with a character that is not plain.
abbrev is_marked : String → Bool
is_marked String.[] = false
is_marked (String.◌∷◌ c p) = not (is_plain c)

after-is_marked : (p s : String) → is_marked p ≡ true → all_plain s ≡ true → after p s ≡ none
unfolding after all_plain
after-is_marked String.[] s marked h = cc
after-is_marked (String.◌∷◌ c p) String.[] marked h = refl
after-is_marked (String.◌∷◌ c p) (String.◌∷◌ d s) marked h = ground arith

one_of-is_marked :
    (w : String) (ws : List String) (test : String → Bool) (s : String)
    → is_marked w ≡ true
    → one_of ws test s ≡ false
    → all_plain s ≡ true
    → one_of (w ∷ ws) test s ≡ false
unfolding one_of
one_of-is_marked w ws test s marked later h = rw (after-is_marked w s marked h, later) refl

search_from-all_plain :
    (at_ : Bool → String → Bool) (in_word : Bool) (s : String)
    → ((b : Bool) (t : String) → all_plain t ≡ true → at_ b t ≡ false)
    → all_plain s ≡ true
    → search_from at_ in_word s ≡ false
unfolding search_from all_plain
search_from-all_plain at_ in_word String.[] fails h = fails in_word String.[] h
search_from-all_plain at_ in_word (String.◌∷◌ c s) fails h =
    let later =
      search_from-all_plain at_ (is_word c) s fails (and_true (is_plain c) (all_plain s) h).1 in
    rw (fails in_word (String.◌∷◌ c s) h, later) refl

and_false : (a b : Bool) → b ≡ false → (a && b) ≡ false
and_false a b h = ground arith

sql_at-all_plain : (b : Bool) (s : String) → all_plain s ≡ true → sql_at b s ≡ false
unfolding sql_at
sql_at-all_plain b s h = and_false (not b) (one_of sql_words (begins is_white) s) (
    one_of-all_plain sql_words (begins is_white) s
      (λ t k. begins-all_plain is_white t white_not_plain k) h)

timing_at-all_plain : (b : Bool) (s : String) → all_plain s ≡ true → timing_at b s ≡ false
unfolding timing_at
timing_at-all_plain b s h =
    let calls = λ (t : String). begins (λ c. same_char c "(") (skip_white t) in
    let waits =
      λ (t : String). begins is_white t && one_of ("delay" ∷ []) ends_word (skip_white t) in
    let no_call : one_of ("sleep" ∷ "benchmark" ∷ "pg_sleep" ∷ []) calls s ≡ false =
      one_of-all_plain ("sleep" ∷ "benchmark" ∷ "pg_sleep" ∷ []) calls s
        (λ t k.
          rw (skip_white-all_plain t k)
            (begins-all_plain (λ c. same_char c "(") t bracket_not_plain k))
        h in
    let no_wait : one_of ("waitfor" ∷ []) waits s ≡ false =
      one_of-all_plain ("waitfor" ∷ []) waits s
        (λ t k. rw (begins-all_plain is_white t white_not_plain k) refl) h in
    and_false (not b)
      (one_of ("sleep" ∷ "benchmark" ∷ "pg_sleep" ∷ []) calls s || one_of ("waitfor" ∷ []) waits s)
      (rw (no_call, no_wait) refl)

traversal_at-all_plain : (b : Bool) (s : String) → all_plain s ≡ true → traversal_at b s ≡ false
unfolding traversal_at one_of
traversal_at-all_plain b s h =
    one_of-is_marked "../" ("..\\" ∷ []) dots_on_line s refl
      (one_of-is_marked "..\\" [] dots_on_line s refl refl h) h

chain_at-all_plain : (b : Bool) (s : String) → all_plain s ≡ true → chain_at b s ≡ false
unfolding chain_at one_of
chain_at-all_plain b s h =
    let piped = λ (t : String). begins is_white t && begins is_word (skip_white t) in
    let quoted = λ (t : String). begins is_word (skip_white t) in
    rw
      (
        one_of-is_marked "|" (";" ∷ []) piped s refl (one_of-is_marked ";" [] piped s refl refl h)
            h,
        one_of-is_marked "`" [] quoted s refl refl h,
      )
      refl

script_at-all_plain : (b : Bool) (s : String) → all_plain s ≡ true → script_at b s ≡ false
unfolding script_at one_of
script_at-all_plain b s h =
    one_of-is_marked "<" [] (λ t. one_of ("script" ∷ []) ends_word (skip_white t)) s refl refl h

or_false : (b : Bool) → (b || false) ≡ b
or_false true = refl
or_false false = refl

-- Of a payload that has nothing but letters, digits, underscores, dashes and slashes, as the paths of an
-- API do, only the name of a shell is held against it: no such path is adversarial for a keyword of
-- SQL, a sleep, a traversal, a chain or a script in it.
pub is_adversarial-all_plain :
    (s : String)
    → all_plain (lower s) ≡ true
    → is_adversarial s ≡ search_from shell_at false (lower s)
unfolding is_adversarial
is_adversarial-all_plain s h =
    let t = lower s in
    rw
      (
        search_from-all_plain sql_at false t sql_at-all_plain h,
        search_from-all_plain timing_at false t timing_at-all_plain h,
        search_from-all_plain traversal_at false t traversal_at-all_plain h,
        search_from-all_plain chain_at false t chain_at-all_plain h,
        search_from-all_plain script_at false t script_at-all_plain h,
      )
      (or_false (search_from shell_at false t))
