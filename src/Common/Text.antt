-- ===== src/Common/Text.antt =====
-- `str::trim`: white space in the sense of Unicode is taken off both ends.
use Prim.Native.Char.{Char, code}
use Prim.Native.Nat.{ℕ}
use Prim.Native.String.{String}
use mathlib.Core.Path.{◌≡◌, refl, ◌∙◌, ap}
use mathlib.Core.Bool.{Bool, true, false, ◌&&◌, ◌||◌}
use mathlib.Core.Logic.{inl, inr}
use native.Mathlib.Omega.{arith}
use shinrai_trade.Common.Tests.{leb, nat_beq, if◌then◌else◌, Bool-cases}

abbrev within : ℕ → ℕ → ℕ → Bool
within lo hi c = leb lo c && leb c hi

-- `char::is_whitespace`
unfoldable pub is_whitespace : Char → Bool
is_whitespace ch =
    let c = code ch in
    within 9 13 c
    || nat_beq c 32
    || nat_beq c 133
    || nat_beq c 160
    || nat_beq c 5760
    || within 8192 8202 c
    || within 8232 8233 c
    || nat_beq c 8239
    || nat_beq c 8287
    || nat_beq c 12288

unfoldable pub trim_start : String → String
trim_start String.[] = String.[]
trim_start (String.◌∷◌ c s) =
    let rest = trim_start s in if is_whitespace c then rest else String.◌∷◌ c s

-- A character is dropped if it is white and nothing but white space follows it.
abbrev pub keep_end : Char → String → String
keep_end c String.[] = if is_whitespace c then String.[] else String.◌∷◌ c String.[]
keep_end c (String.◌∷◌ d s) = String.◌∷◌ c (String.◌∷◌ d s)

unfoldable pub trim_end : String → String
trim_end String.[] = String.[]
trim_end (String.◌∷◌ c s) = keep_end c (trim_end s)

unfoldable pub trim : String → String
unfolding trim_start trim_end
trim s = trim_end (trim_start s)

abbrev pub is_empty_text : String → Bool
is_empty_text String.[] = true
is_empty_text (String.◌∷◌ c s) = false

keep_end-keep_end :
    (c : Char) (s : String) → trim_end s ≡ s → trim_end (keep_end c s) ≡ keep_end c s
unfolding trim_end
keep_end-keep_end c String.[] h = elim (Bool-cases (is_whitespace c)) [
  | inl white ↦ rw white
  | inr dark ↦ rw dark (rw dark)
]
keep_end-keep_end c (String.◌∷◌ d s) h = rw h

trim_end-trim_end : (s : String) → trim_end (trim_end s) ≡ trim_end s
unfolding trim_end
trim_end-trim_end String.[] = refl
trim_end-trim_end (String.◌∷◌ c s) = keep_end-keep_end c (trim_end s) (trim_end-trim_end s)

-- A text begins with white space, or `trim_start` leaves it.
starts_dark : String → Bool
starts_dark String.[] = true
starts_dark (String.◌∷◌ c s) = if is_whitespace c then false else true

starts_dark-trim_start : (s : String) → starts_dark (trim_start s) ≡ true
unfolding trim_start starts_dark
starts_dark-trim_start String.[] = refl
starts_dark-trim_start (String.◌∷◌ c s) = elim (Bool-cases (is_whitespace c)) [
  | inl white ↦ rw white (starts_dark-trim_start s)
  | inr dark ↦ rw dark (rw dark)
]

starts_dark-keep_end :
    (c : Char) (s : String) → is_whitespace c ≡ false → starts_dark (keep_end c s) ≡ true
unfolding starts_dark
starts_dark-keep_end c String.[] h = rw h (rw h)
starts_dark-keep_end c (String.◌∷◌ d s) h = rw h

starts_dark-trim_end : (s : String) → starts_dark s ≡ true → starts_dark (trim_end s) ≡ true
unfolding trim_end starts_dark
starts_dark-trim_end String.[] h = refl
starts_dark-trim_end (String.◌∷◌ c s) h = starts_dark-keep_end c (trim_end s) (ground arith)

trim_start_id : (s : String) → starts_dark s ≡ true → trim_start s ≡ s
unfolding trim_start starts_dark
trim_start_id String.[] h = refl
trim_start_id (String.◌∷◌ c s) h = ground arith

-- Trimming a trimmed text changes nothing.
pub trim-trim : (s : String) → trim (trim s) ≡ trim s
unfolding trim
trim-trim s =
    ap trim_end (
      trim_start_id (trim_end (trim_start s))
        (starts_dark-trim_end (trim_start s) (starts_dark-trim_start s)))
    ∙ trim_end-trim_end (trim_start s)

-- Printable characters of ASCII.
unfoldable pub all_printable : String → Bool
all_printable String.[] = true
all_printable (String.◌∷◌ c s) = within 33 126 (code c) && all_printable s

printable_dark : (c : Char) → within 33 126 (code c) ≡ true → is_whitespace c ≡ false
unfolding is_whitespace
printable_dark c h = ground arith

keep_end-dark : (c : Char) (s : String) → is_whitespace c ≡ false → keep_end c s ≡ String.◌∷◌ c s
keep_end-dark c String.[] h = rw h refl
keep_end-dark c (String.◌∷◌ d s) h = refl

starts_dark-printable : (s : String) → all_printable s ≡ true → starts_dark s ≡ true
unfolding starts_dark all_printable
starts_dark-printable String.[] h = refl
starts_dark-printable (String.◌∷◌ c s) h = ground (arith, printable_dark c)

trim_end-printable : (s : String) → all_printable s ≡ true → trim_end s ≡ s
unfolding trim_end all_printable
trim_end-printable String.[] h = refl
trim_end-printable (String.◌∷◌ c s) h =
    ap (keep_end c) (trim_end-printable s (ground arith))
    ∙ keep_end-dark c s (ground (arith, printable_dark c))

-- There is nothing to trim in them.
pub trim-printable : (s : String) → all_printable s ≡ true → trim s ≡ s
unfolding trim
trim-printable s h =
    ap trim_end (trim_start_id s (starts_dark-printable s h)) ∙ trim_end-printable s h
