-- ===== src/Security/Regex.antt =====
-- The regular expressions of src/hawiya/security/pii.py as matchers, and `re.sub` with a fixed text. A
-- matcher is given the character before, if there is one, and the text ahead, and gives the length of
-- the match that Python's `re` finds there: repetitions take as much as they can, and give back as
-- much as the rest of the pattern needs.
use hawiya_ai.Prelude.{
  ℕ, zero, suc, Bool, true, false, not, Option, none, some, [], ◌∷◌, ◌++◌, if◌then◌else◌, ◌==◌,
}
use hawiya_ai.Text.{Text}

abbrev pub Matcher : Type 0
Matcher = Option ℕ → Text → Option ℕ

abbrev pub Class : Type 0
Class = ℕ → Bool

abbrev pub longer : Option ℕ → Option ℕ
longer none = none
longer (some n) = some (suc n)

abbrev pub or_else : Option ℕ → Option ℕ → Option ℕ
or_else none other = other
or_else (some n) other = some n

-- The end of a pattern.
abbrev pub stop : Matcher
stop prev s = some 0

-- One character of the class.
unfoldable pub one : Class → Matcher → Matcher
one class rest prev [] = none
one class rest prev (c ∷ s) = if class c then longer (rest (some c) s) else none

-- `class{n}`.
unfoldable pub exactly : ℕ → Class → Matcher → Matcher
exactly zero class rest = rest
exactly (suc n) class rest = one class (exactly n class rest)

-- `class{0,n}`.
unfoldable pub up_to : ℕ → Class → Matcher → Matcher
up_to zero class rest = rest
up_to (suc n) class rest = λ prev s. or_else (one class (up_to n class rest) prev s) (rest prev s)

-- `class*`.
unfoldable pub many : Class → Matcher → Matcher
many class rest prev [] = rest prev []
many class rest prev (c ∷ s) =
    let more = many class rest (some c) s in
    or_else (if class c then longer more else none) (rest prev (c ∷ s))

-- `class{n,m}` with m = n + k, and `class{n,}`.
abbrev pub between : ℕ → ℕ → Class → Matcher → Matcher
between n k class rest = exactly n class (up_to k class rest)

abbrev pub at_least : ℕ → Class → Matcher → Matcher
at_least n class rest = exactly n class (many class rest)

-- A literal text.
abbrev pub literal : Text → Matcher → Matcher
literal [] rest = rest
literal (c ∷ cs) rest = one (λ d. d == c) (literal cs rest)

-- `\b`: a word character stands on one side only.
abbrev pub is_word_ahead : Class → Text → Bool
is_word_ahead word [] = false
is_word_ahead word (c ∷ s) = word c

abbrev pub is_word_behind : Class → Option ℕ → Bool
is_word_behind word none = false
is_word_behind word (some c) = word c

abbrev pub differ : Bool → Bool → Bool
differ true b = not b
differ false b = b

unfoldable pub boundary : Class → Matcher → Matcher
boundary word rest prev s =
    if differ (is_word_behind word prev) (is_word_ahead word s) then rest prev s else none

-- What stands for a character: itself, if there is no match (no pattern here matches the empty text),
-- or the replacement of the whole match.
abbrev pub emit : Text → Option ℕ → ℕ → (ℕ → Text) → Text
emit replacement none c rest = c ∷ rest 0
emit replacement (some zero) c rest = c ∷ rest 0
emit replacement (some (suc n)) c rest = replacement ++ rest n

-- The characters to skip belong to the last match.
unfoldable pub scan : Matcher → Text → Option ℕ → ℕ → Text → Text
scan pattern replacement prev skip [] = []
scan pattern replacement prev (suc skip) (c ∷ s) = scan pattern replacement (some c) skip s
scan pattern replacement prev zero (c ∷ s) =
    emit replacement (pattern prev (c ∷ s)) c (λ n. scan pattern replacement (some c) n s)

-- `pattern.sub(replacement, s)`.
unfoldable pub sub : Matcher → Text → Text → Text
sub pattern replacement s = scan pattern replacement none 0 s
