-- ===== src/Prelude/Texts.antt =====
-- Python's `str` methods that the program calls. Letters and white space are those of ASCII: other
-- characters are neither folded by `lower` nor taken off by `strip`.
use Prim.Native.Nat.{ℕ, zero, suc, compare, Ordering}
use Prim.Native.Char.{Char, code}
use Prim.Native.String
use Prim.Native.String.{String}
use mathlib.Core.Path.{◌≡◌, refl}
use mathlib.Core.Bool.{Bool, true, false, ◌&&◌, ◌||◌}
use text.Mathlib.Text.{◌==◌}
use mandare.Prelude.Tests.{ltb, leb, if◌then◌else◌}

abbrev pub same_char : Char → Char → Bool
same_char c d = elim (compare (code c) (code d)) [ Ordering.eq ↦ true | _ ↦ false ]

-- The letter of the second alphabet that stands where `c` does in the first.
fold_char : String → String → Char → Char
fold_char (String.◌∷◌ u us) (String.◌∷◌ l ls) c =
    let rest = fold_char us ls c in if same_char u c then l else rest
fold_char _ _ c = c

-- `s.lower()`
unfoldable pub lower : String → String
unfolding fold_char
lower String.[] = String.[]
lower (String.◌∷◌ c s) =
    String.◌∷◌ (fold_char "ABCDEFGHIJKLMNOPQRSTUVWXYZ" "abcdefghijklmnopqrstuvwxyz" c) (lower s)

-- `str.isspace` of one character of ASCII
is_space : Char → Bool
is_space c = let n = code c in leb 9 n && leb n 13 || leb 28 n && leb n 32

lstrip : String → String
lstrip String.[] = String.[]
lstrip (String.◌∷◌ c s) = let rest = lstrip s in if is_space c then rest else String.◌∷◌ c s

rstrip : String → String
rstrip String.[] = String.[]
rstrip (String.◌∷◌ c s) =
    let rest = rstrip s in if is_space c && rest == "" then "" else String.◌∷◌ c rest

-- `s.strip()`
unfoldable pub strip : String → String
unfolding is_space lstrip rstrip
strip s = rstrip (lstrip s)

-- `text.startswith(p)`, with the prefix first
unfoldable pub is_prefix : String → String → Bool
is_prefix String.[] t = true
is_prefix (String.◌∷◌ c p) String.[] = false
is_prefix (String.◌∷◌ c p) (String.◌∷◌ d t) = same_char c d && is_prefix p t

-- `text.endswith(p)`, with the suffix first
unfoldable pub is_suffix : String → String → Bool
is_suffix p String.[] = p == ""
is_suffix p (String.◌∷◌ d t) = p == String.◌∷◌ d t || is_suffix p t

-- `p in text`
unfoldable pub is_infix : String → String → Bool
unfolding is_prefix
is_infix p String.[] = is_prefix p ""
is_infix p (String.◌∷◌ d t) = is_prefix p (String.◌∷◌ d t) || is_infix p t

-- `text.split("/")[0]`
unfoldable pub before_slash : String → String
before_slash String.[] = String.[]
before_slash (String.◌∷◌ c s) =
    let rest = before_slash s in if same_char c "/" then "" else String.◌∷◌ c rest

-- `text[1:]`
unfoldable pub drop_first : String → String
drop_first String.[] = String.[]
drop_first (String.◌∷◌ c s) = s

-- `text[:n]`
unfoldable pub first_chars : ℕ → String → String
first_chars zero s = String.[]
first_chars (suc n) String.[] = String.[]
first_chars (suc n) (String.◌∷◌ c s) = String.◌∷◌ c (first_chars n s)

-- `s + t`
abbrev pub text_append : String → String → String
text_append s t = String.◌++◌ s t

-- every character is in ASCII
unfoldable pub is_ascii : String → Bool
is_ascii String.[] = true
is_ascii (String.◌∷◌ c s) = ltb (code c) 128 && is_ascii s

texts_run :
    (lower "Api.COM" ≡ "api.com")
    × (strip " a b\n" ≡ "a b")
    × (is_infix "bc" "abcd" ≡ true)
    × (is_suffix ".com" "x.com" ≡ true)
    × (before_slash "host/a/b" ≡ "host")
unfolding lower strip is_infix is_suffix before_slash
texts_run = (refl, refl, refl, refl, refl)
