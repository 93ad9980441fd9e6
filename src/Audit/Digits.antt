-- ===== src/Audit/Digits.antt =====
-- crates/domain/audit/src/lib.rs: lists of bytes, and how long the bytes of a hash are.
use mathlib.Core.Path.{subst}
use Prim.Native.Char.{Char, code, len_utf8}
use Prim.Native.String.{String, char_at, past}
use Prim.Native.String.char_at.{nil, cons-zero, cons-suc}
use Prim.Native.Nat.{compare, Ordering}
use shinrai_trade.Common.{
  ℕ, zero, suc, ◌-◌, ◌*◌, ◌/◌, ◌%◌, ◌<◌, ◌≡◌, ◌≢◌, ◌⊎◌, inl, inr, refl, sym, ap, arith, [], ◌∷◌,
  ◌++◌, length, length-append,
}
use shinrai_trade.Audit.Record.{Bytes, as_bytes, hex_encode, utf8}

-- Equality of bytes is decided.
pub same_or_other : (x y : Bytes) → (x ≡ y) ⊎ (x ≢ y)
same_or_other [] [] = inl refl
same_or_other [] (y ∷ ys) = inr (λ e. ground arith)
same_or_other (x ∷ xs) [] = inr (λ e. ground arith)
same_or_other (x ∷ xs) (y ∷ ys) = ground (arith, same_or_other xs ys)

-- Ends of the same length of equal lists are equal.
pub ends_equal : (xs ys p q : Bytes) → length p ≡ length q → xs ++ p ≡ ys ++ q → p ≡ q
ends_equal [] [] p q same h = h
ends_equal [] (y ∷ ys) p q same h = ground (arith, ap length h, length-append ys q)
ends_equal (x ∷ xs) [] p q same h = ground (arith, ap length h, length-append xs p)
ends_equal (x ∷ xs) (y ∷ ys) p q same h = ends_equal xs ys p q same (ground arith)

abbrev AllAscii : String → Type 0
AllAscii String.[] = Unit
AllAscii (String.◌∷◌ c s) = (code c < 128) × AllAscii s

past-ascii : (o : Ordering) (c : Char) → code c < 128 → code (past o c) < 128
past-ascii Ordering.lt c k = omega arith
past-ascii Ordering.eq c k = k
past-ascii Ordering.gt c k = k

char_at-ascii : (s : String) (i : ℕ) → AllAscii s → code (char_at s i) < 128
char_at-ascii String.[] i a = subst (λ c. code c < 128) (sym (nil i)) (omega arith)
char_at-ascii (String.◌∷◌ c s) zero (k, a) = subst (λ d. code d < 128) (sym (cons-zero c s)) k
char_at-ascii (String.◌∷◌ c s) (suc i) (k, a) =
    subst (λ d. code d < 128) (sym (cons-suc c s i))
      (past-ascii (compare (suc i) (len_utf8 c)) (char_at s (suc i - len_utf8 c))
        (char_at-ascii s (suc i - len_utf8 c) a))

length-digit : (d : ℕ) → length (utf8 (code (char_at "0123456789abcdef" d))) ≡ 1
unfolding utf8
length-digit d = ground (arith, char_at-ascii "0123456789abcdef" d (ground arith))

-- A hash has two bytes of text for each byte.
pub length-hex_encode : (bs : Bytes) → length (as_bytes (hex_encode bs)) ≡ 2 * length bs
unfolding as_bytes hex_encode
length-hex_encode [] = refl
length-hex_encode (b ∷ bs) =
    let high = utf8 (code (char_at "0123456789abcdef" (b / 16))) in
    let low = utf8 (code (char_at "0123456789abcdef" (b % 16))) in
    let rest = as_bytes (hex_encode bs) in
    omega (
      arith,
      length-append high (low ++ rest),
      length-append low rest,
      length-digit (b / 16),
      length-digit (b % 16),
      length-hex_encode bs,
    )
