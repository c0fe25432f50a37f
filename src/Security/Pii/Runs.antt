-- ===== src/Security/Pii/Runs.antt =====
-- What `_redact_string` of src/hawiya/security/pii.py leaves of the lines of a machine readable zone.
use hawiya_ai.Prelude.{
  ℕ, zero, suc, ◌+◌, ◌≤◌, ◌<◌, ◌≡◌, refl, sym, ◌∙◌, ap, ◌⊎◌, inl, inr, Bool, true, false, Option,
  none, some, [], ◌∷◌, ◌++◌, arith, length, all, Bool-cases, if◌then◌else◌, and-true,
}
use mathlib.Core.Bool.{false≢true}
use hawiya_ai.Text.{Text}
use hawiya_ai.Security.Regex.{longer, or_else, stop, one, exactly, many, emit, scan, sub}
use hawiya_ai.Security.Pii.{Python, is_mrz, mrz_line_re, redacted, redact_string}
use hawiya_ai.Security.Pii.Short.{
  spend, is_short, is_short_mono, redacted-is_short, tail-is_short, room_at, room_at_full,
  sub-is_short,
}

-- How many characters of the alphabet stand at the head.
unfoldable lead : Text → ℕ
lead [] = 0
lead (c ∷ s) = let rest = suc (lead s) in if is_mrz c then rest else 0

many-stop : (s : Text) (prev : Option ℕ) → (n : ℕ) × (many is_mrz stop prev s ≡ some n)
unfolding many
many-stop [] prev = (0, refl)
many-stop (c ∷ s) prev = step (is_mrz c) (many-stop s (some c))
  where
    step :
        (b : Bool)
        → (n : ℕ) × (many is_mrz stop (some c) s ≡ some n)
        → (n : ℕ) × (or_else (if b then longer (many is_mrz stop (some c) s) else none) (some 0)
            ≡ some n)
    step false found = (0, refl)
    step true (n, e) = (suc n, rw e refl)

-- The pattern matches exactly where enough characters of the alphabet stand.
at_least-lead :
    (n : ℕ) (s : Text) (prev : Option ℕ)
    → ((exactly n is_mrz (many is_mrz stop) prev s ≡ none) × (lead s < n))
      ⊎ ((m : ℕ) × (exactly n is_mrz (many is_mrz stop) prev s ≡ some (n + m)) × (n ≤ lead s))
unfolding exactly one lead
at_least-lead zero s prev =
    let (m, e) = many-stop s prev in inr (m, e ∙ ap some (omega arith), omega arith)
at_least-lead (suc n) [] prev = inl (refl, omega arith)
at_least-lead (suc n) (c ∷ s) prev = step (is_mrz c) (at_least-lead n s (some c))
  where
    step :
        (b : Bool)
        → ((exactly n is_mrz (many is_mrz stop) (some c) s ≡ none) × (lead s < n))
          ⊎ ((m : ℕ) × (exactly n is_mrz (many is_mrz stop) (some c) s ≡ some (n + m))
              × (n ≤ lead s))
        → (((if b then longer (exactly n is_mrz (many is_mrz stop) (some c) s) else none) ≡ none)
            × ((if b then suc (lead s) else 0) < suc n))
          ⊎ ((m : ℕ) × ((if b
                  then longer (exactly n is_mrz (many is_mrz stop) (some c) s)
                  else none)
                ≡ some (suc n + m))
              × (suc n ≤ (if b then suc (lead s) else 0)))
    step false found = inl (refl, omega arith)
    step true (inl (e, h)) = inl (rw e refl, omega arith)
    step true (inr (m, e, h)) = inr (m, ap longer e ∙ ap some (omega arith), omega arith)

fits : (n room : ℕ) → room ≡ 29 → (n ≤ room) ⊎ (30 ≤ n)
fits n room e = ground arith

lead-is_short :
    (room c : ℕ) (s t : Text)
    → ((r : ℕ) → (lead s ≤ r) ⊎ (30 ≤ lead s) → is_short r t ≡ true)
    → lead (c ∷ s) ≤ room
    → is_short room (c ∷ t) ≡ true
unfolding is_short lead
lead-is_short room c s t short h = step (is_mrz c) room h
  where
    step :
        (b : Bool) (room : ℕ)
        → (if b then suc (lead s) else 0) ≤ room
        → (if b then spend room (λ r. is_short r t) else is_short 29 t) ≡ true
    step false room h = short 29 (fits (lead s) 29 refl)
    step true zero h = absurd (omega arith)
    step true (suc room) h = short room (inl (omega arith))

emit-mrz :
    (o : Option ℕ) (room c : ℕ) (s : Text) (rest : ℕ → Text)
    → ((o ≡ none) × (lead (c ∷ s) < 30)) ⊎ ((m : ℕ) × (o ≡ some (30 + m)) × (30 ≤ lead (c ∷ s)))
    → ((r : ℕ) → (lead s ≤ r) ⊎ (30 ≤ lead s) → is_short r (rest 0) ≡ true)
    → ((n : ℕ) → is_short 29 (rest n) ≡ true)
    → (lead (c ∷ s) ≤ room) ⊎ (30 ≤ lead (c ∷ s))
    → is_short room (emit redacted o c rest) ≡ true
emit-mrz o room c s rest (inl (e, below)) short full h =
    rw e (lead-is_short room c s (rest 0) short (ground arith))
emit-mrz o room c s rest (inr (m, e, above)) short full h =
    let n : 30 + m ≡ suc (29 + m) = omega arith in
    ap (λ p. is_short room (emit redacted p c rest)) (e ∙ ap some n)
    ∙ redacted-is_short room (rest (29 + m))
    ∙ full (29 + m)

-- The first pass leaves only short runs: what stands ahead fits in the room, or is replaced.
mrz-is_short :
    (s : Text) (prev : Option ℕ) (skip room : ℕ)
    → (lead s ≤ room) ⊎ (30 ≤ lead s)
    → is_short (room_at skip room) (scan mrz_line_re redacted prev skip s) ≡ true
unfolding scan is_short
mrz-is_short [] prev zero room h = refl
mrz-is_short [] prev (suc skip) room h = refl
mrz-is_short (c ∷ s) prev (suc skip) room h =
    ap (λ r. is_short r (scan mrz_line_re redacted (some c) skip s)) (sym (room_at_full skip))
    ∙ mrz-is_short s (some c) skip 29 (fits (lead s) 29 refl)
mrz-is_short (c ∷ s) prev zero room h =
    emit-mrz (mrz_line_re prev (c ∷ s)) room c s (λ n. scan mrz_line_re redacted (some c) n s)
      (at_least-lead 30 (c ∷ s) prev) (mrz-is_short s (some c) 0)
      (λ n.
        ap (λ r. is_short r (scan mrz_line_re redacted (some c) n s)) (sym (room_at_full n))
        ∙ mrz-is_short s (some c) n 29 (fits (lead s) 29 refl))
      h

-- In a short text, a run is no longer than the room, and its rest is short.
run-length :
    (run post : Text) (room : ℕ)
    → is_short room (run ++ post) ≡ true
    → all is_mrz run ≡ true
    → length run ≤ room
unfolding is_short
run-length [] post room e a = omega arith
run-length (c ∷ run) post room e a =
    let (head, rest) = and-true (is_mrz c) (all is_mrz run) a in
    step room (rw head at e) (λ r p. run-length run post r p rest)
  where
    step :
        (room : ℕ)
        → spend room (λ r. is_short r (run ++ post)) ≡ true
        → ((r : ℕ) → is_short r (run ++ post) ≡ true → length run ≤ r)
        → suc (length run) ≤ room
    step zero e below = absurd (false≢true e)
    step (suc room) e below = omega (arith, below room e)

drop_front :
    (pre s : Text) (room : ℕ) → room ≤ 29 → is_short room (pre ++ s) ≡ true → is_short 29 s ≡ true
drop_front [] s room h e = is_short_mono s room 29 h e
drop_front (c ∷ pre) s room h e =
    drop_front pre s 29 (omega arith) (tail-is_short room c (pre ++ s) h e)

-- No thirty neighbours of a text are all of the alphabet.
abbrev pub IsFreeOfMrz : Text → Type 0
IsFreeOfMrz s =
    (pre run post : Text) → s ≡ pre ++ (run ++ post) → length run ≡ 30 → all is_mrz run ≡ false

short-IsFreeOfMrz : (s : Text) → is_short 29 s ≡ true → IsFreeOfMrz s
short-IsFreeOfMrz s short = λ pre run post e h. elim (Bool-cases (all is_mrz run)) [
  | inr p ↦ p
  | inl p ↦ absurd (
      omega (
        arith,
        run-length run post 29
            (drop_front pre (run ++ post) 29 (omega arith) (ap (is_short 29) (sym e) ∙ short)) p,
      ))
]

pub redacted-IsFreeOfMrz : IsFreeOfMrz redacted
unfolding is_short
redacted-IsFreeOfMrz = short-IsFreeOfMrz redacted refl

-- Whatever the text, thirty neighbours in its redaction are never all of the alphabet `[A-Z0-9<]`: no
-- line of a machine readable zone gets through.
pub redact_string-IsFreeOfMrz :
    (python : Python) (value : Text) → IsFreeOfMrz (redact_string python value)
unfolding redact_string sub
redact_string-IsFreeOfMrz python value = short-IsFreeOfMrz _ (
    sub-is_short _ _ (
      sub-is_short _ _
        (sub-is_short _ _ (mrz-is_short value none 0 29 (fits (lead value) 29 refl)))))
