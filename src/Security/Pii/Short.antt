-- ===== src/Security/Pii/Short.antt =====
-- Runs of the alphabet `[A-Z0-9<]`, and what `re.sub` in src/hawiya/security/pii.py does to them.
use hawiya_ai.Prelude.{
  ℕ, zero, suc, ◌≤◌, ◌≡◌, refl, sym, ◌∙◌, ap, Bool, true, false, Option, none, some, [], ◌∷◌, ◌++◌,
  arith, if◌then◌else◌,
}
use mathlib.Core.Bool.{false≢true}
use hawiya_ai.Text.{Text}
use hawiya_ai.Security.Regex.{Matcher, emit, scan, sub}
use hawiya_ai.Security.Pii.{is_mrz, redacted}

-- How a character of the alphabet uses up the room that is left.
abbrev pub spend : ℕ → (ℕ → Bool) → Bool
spend zero rest = false
spend (suc room) rest = rest room

-- No run of the alphabet `[A-Z0-9<]` is longer than 29, and the first no longer than the room.
unfoldable pub is_short : ℕ → Text → Bool
is_short room [] = true
is_short room (c ∷ s) = if is_mrz c then spend room (λ r. is_short r s) else is_short 29 s

pub is_short_mono :
    (s : Text) (room more : ℕ) → room ≤ more → is_short room s ≡ true → is_short more s ≡ true
unfolding is_short
is_short_mono [] room more h e = refl
is_short_mono (c ∷ s) room more h e = step (is_mrz c) room more h (is_short_mono s) e
  where
    step :
        (b : Bool) (room more : ℕ)
        → room ≤ more
        → ((r m : ℕ) → r ≤ m → is_short r s ≡ true → is_short m s ≡ true)
        → (if b then spend room (λ r. is_short r s) else is_short 29 s) ≡ true
        → (if b then spend more (λ r. is_short r s) else is_short 29 s) ≡ true
    step false room more h mono e = e
    step true zero more h mono e = absurd (false≢true e)
    step true (suc room) zero h mono e = absurd (omega arith)
    step true (suc room) (suc more) h mono e = mono room more (omega arith) e

-- A replacement resets the room.
pub redacted-is_short : (room : ℕ) (s : Text) → is_short room (redacted ++ s) ≡ is_short 29 s
unfolding is_short
redacted-is_short room s = refl

-- What a text leaves of a room behind its first character.
pub tail-is_short :
    (room c : ℕ) (s : Text) → room ≤ 29 → is_short room (c ∷ s) ≡ true → is_short 29 s ≡ true
unfolding is_short
tail-is_short room c s h e = step (is_mrz c) room h e
  where
    step :
        (b : Bool) (room : ℕ)
        → room ≤ 29
        → (if b then spend room (λ r. is_short r s) else is_short 29 s) ≡ true
        → is_short 29 s ≡ true
    step false room h e = e
    step true zero h e = absurd (false≢true e)
    step true (suc room) h e = is_short_mono s room 29 (omega arith) e

-- A character that is kept before a text that needs no more room.
kept-is_short :
    (room c : ℕ) (s t : Text)
    → ((r : ℕ) → r ≤ 29 → is_short r s ≡ true → is_short r t ≡ true)
    → room ≤ 29
    → is_short room (c ∷ s) ≡ true
    → is_short room (c ∷ t) ≡ true
unfolding is_short
kept-is_short room c s t keeps h e = step (is_mrz c) room h e
  where
    step :
        (b : Bool) (room : ℕ)
        → room ≤ 29
        → (if b then spend room (λ r. is_short r s) else is_short 29 s) ≡ true
        → (if b then spend room (λ r. is_short r t) else is_short 29 t) ≡ true
    step false room h e = keeps 29 (omega arith) e
    step true zero h e = absurd (false≢true e)
    step true (suc room) h e = keeps room (omega arith) e

-- The room at a position of a scan: all of it while characters of a match are skipped.
abbrev pub room_at : ℕ → ℕ → ℕ
room_at zero room = room
room_at (suc skip) room = 29

pub room_at_full : (skip : ℕ) → room_at skip 29 ≡ 29
room_at_full zero = refl
room_at_full (suc skip) = refl

emit-is_short :
    (o : Option ℕ) (room c : ℕ) (s : Text) (rest : ℕ → Text)
    → ((r : ℕ) → r ≤ 29 → is_short r s ≡ true → is_short r (rest 0) ≡ true)
    → ((n : ℕ) → is_short 29 (rest n) ≡ true)
    → room ≤ 29
    → is_short room (c ∷ s) ≡ true
    → is_short room (emit redacted o c rest) ≡ true
emit-is_short none room c s rest keeps full h e = kept-is_short room c s (rest 0) keeps h e
emit-is_short (some zero) room c s rest keeps full h e = kept-is_short room c s (rest 0) keeps h e
emit-is_short (some (suc n)) room c s rest keeps full h e = redacted-is_short room (rest n) ∙ full n

-- No pattern makes a run longer.
scan-is_short :
    (pattern : Matcher) (s : Text) (prev : Option ℕ) (skip room : ℕ)
    → room ≤ 29
    → is_short room s ≡ true
    → is_short (room_at skip room) (scan pattern redacted prev skip s) ≡ true
unfolding scan is_short
scan-is_short pattern [] prev zero room h e = refl
scan-is_short pattern [] prev (suc skip) room h e = refl
scan-is_short pattern (c ∷ s) prev (suc skip) room h e =
    ap (λ r. is_short r (scan pattern redacted (some c) skip s)) (sym (room_at_full skip))
    ∙ scan-is_short pattern s (some c) skip 29 (omega arith) (tail-is_short room c s h e)
scan-is_short pattern (c ∷ s) prev zero room h e =
    emit-is_short (pattern prev (c ∷ s)) room c s (λ n. scan pattern redacted (some c) n s)
      (scan-is_short pattern s (some c) 0)
      (λ n.
        ap (λ r. is_short r (scan pattern redacted (some c) n s)) (sym (room_at_full n))
        ∙ scan-is_short pattern s (some c) n 29 (omega arith) (tail-is_short room c s h e))
      h e

pub sub-is_short :
    (pattern : Matcher) (s : Text)
    → is_short 29 s ≡ true
    → is_short 29 (sub pattern redacted s) ≡ true
unfolding sub
sub-is_short pattern s e = scan-is_short pattern s none 0 29 (omega arith) e
