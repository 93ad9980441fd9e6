-- ===== src/Book/Levels.antt =====
-- crates/domain/market-data/src/book.rs: one side of a book, a `BTreeMap` from prices to sizes, as
-- a list in the order of the prices.
use mathlib.Core.Path.{subst}
use shinrai_trade.Common.{sym, ◌≡◌, refl, arith, List, [], ◌∷◌, if◌then◌else◌}
use shinrai_trade.Common.Int.{ℤ, pos, ◌<ℤ◌, ◌≤ℤ◌, ltb_ℤ, eqb_ℤ}

-- Prices with their sizes.
abbrev pub Levels : Type 0
Levels = List (ℤ × ℤ)

unfoldable pub insert_level : ℤ → ℤ → Levels → Levels
insert_level p q [] = (p, q) ∷ []
insert_level p q ((r, s) ∷ l) =
    let rest = insert_level p q l in
    if ltb_ℤ p r then (p, q) ∷ (r, s) ∷ l else if eqb_ℤ p r then (p, q) ∷ l else (r, s) ∷ rest

unfoldable pub remove_level : ℤ → Levels → Levels
remove_level p [] = []
remove_level p ((r, s) ∷ l) =
    let rest = remove_level p l in if eqb_ℤ p r then rest else (r, s) ∷ rest

-- A size of zero deletes the level.
unfoldable pub put_level : ℤ → ℤ → Levels → Levels
unfolding insert_level remove_level
put_level p q l = if eqb_ℤ q (pos 0) then remove_level p l else insert_level p q l

-- The size at a price, none being zero.
unfoldable pub size_at : ℤ → Levels → ℤ
size_at p [] = pos 0
size_at p ((r, s) ∷ l) = if eqb_ℤ p r then s else size_at p l

-- Prices above `b`, strictly increasing, with positive sizes.
abbrev pub Above : ℤ → Levels → Type 0
Above b [] = Unit
Above b ((r, s) ∷ l) = (b <ℤ r) × (pos 0 <ℤ s) × Above r l

abbrev pub IsLadder : Levels → Type 0
IsLadder [] = Unit
IsLadder ((r, s) ∷ l) = (pos 0 <ℤ s) × Above r l

Above-insert_level :
    (b p q : ℤ) (l : Levels) → b <ℤ p → pos 0 <ℤ q → Above b l → Above b (insert_level p q l)
unfolding insert_level
Above-insert_level b p q [] h k a = (h, k, tt)
Above-insert_level b p q ((r, s) ∷ l) h k a = ground (arith, Above-insert_level r p q l)

Above-weaken : (b c : ℤ) (l : Levels) → c ≤ℤ b → Above b l → Above c l
Above-weaken b c [] h a = tt
Above-weaken b c ((r, s) ∷ l) h (lt, more, rest) = (omega arith, more, rest)

Above-remove_level : (b p : ℤ) (l : Levels) → Above b l → Above b (remove_level p l)
unfolding remove_level
Above-remove_level b p [] a = tt
Above-remove_level b p ((r, s) ∷ l) (lt, more, a) =
    let kept = Above-remove_level r p l a in
    ground (arith, kept, Above-weaken r b (remove_level p l) (omega arith) kept)

pub IsLadder-tail : (r s : ℤ) (l : Levels) → Above r l → IsLadder l
IsLadder-tail r s [] a = tt
IsLadder-tail r s ((t, u) ∷ l) (lt, more, rest) = (more, rest)

insert_level-IsLadder :
    (p q : ℤ) (l : Levels) → pos 0 <ℤ q → IsLadder l → IsLadder (insert_level p q l)
unfolding insert_level
insert_level-IsLadder p q [] k a = (k, tt)
insert_level-IsLadder p q ((r, s) ∷ l) k a = ground (arith, Above-insert_level r p q l)

remove_level-IsLadder : (p : ℤ) (l : Levels) → IsLadder l → IsLadder (remove_level p l)
unfolding remove_level
remove_level-IsLadder p [] a = tt
remove_level-IsLadder p ((r, s) ∷ l) (more, a) = ground (
  arith,
  Above-remove_level r p l a,
  IsLadder-tail r s (remove_level p l) (Above-remove_level r p l a),
)

-- A size that is not negative keeps a ladder.
pub put_level-IsLadder :
    (p q : ℤ) (l : Levels) → pos 0 ≤ℤ q → IsLadder l → IsLadder (put_level p q l)
unfolding put_level
put_level-IsLadder p q l k a =
    ground (arith, insert_level-IsLadder p q l, remove_level-IsLadder p l a)

size_at-insert_level :
    (j p q : ℤ) (l : Levels)
    → size_at j (insert_level p q l) ≡ (if eqb_ℤ j p then q else size_at j l)
unfolding size_at insert_level
size_at-insert_level j p q [] = refl
size_at-insert_level j p q ((r, s) ∷ l) = ground (arith, size_at-insert_level j p q l)

size_at-remove_level :
    (j p : ℤ) (l : Levels)
    → size_at j (remove_level p l) ≡ (if eqb_ℤ j p then pos 0 else size_at j l)
unfolding size_at remove_level
size_at-remove_level j p [] = ground arith
size_at-remove_level j p ((r, s) ∷ l) = ground (arith, size_at-remove_level j p l)

pub size_at-put_level :
    (j p q : ℤ) (l : Levels) → size_at j (put_level p q l) ≡ (if eqb_ℤ j p then q else size_at j l)
unfolding put_level
size_at-put_level j p q l = ground (arith, size_at-insert_level j p q l, size_at-remove_level j p l)

pub size_at-Above : (b p : ℤ) (l : Levels) → Above b l → p ≤ℤ b → size_at p l ≡ pos 0
unfolding size_at
size_at-Above b p [] a h = refl
size_at-Above b p ((r, s) ∷ l) a h = ground (arith, size_at-Above r p l)

Above-tails :
    (r s s' : ℤ) (l m : Levels)
    → Above r l
    → Above r m
    → ((p : ℤ) → size_at p ((r, s) ∷ l) ≡ size_at p ((r, s') ∷ m))
    → (p : ℤ) → size_at p l ≡ size_at p m
unfolding size_at
Above-tails r s s' l m a a' h p = ground (arith, h p, size_at-Above r p l, size_at-Above r p m)

Above-heads :
    (r s r' s' : ℤ) (l m : Levels)
    → pos 0 <ℤ s
    → Above r l
    → pos 0 <ℤ s'
    → Above r' m
    → ((p : ℤ) → size_at p ((r, s) ∷ l) ≡ size_at p ((r', s') ∷ m))
    → (r ≡ r') × (s ≡ s')
unfolding size_at
Above-heads r s r' s' l m k a k' a' h =
    ground (arith, h r, h r', size_at-Above r r' l a, size_at-Above r' r m a')

-- Two ladders with the same size at every price are the same list.
pub IsLadder-ext :
    (l m : Levels) → IsLadder l → IsLadder m → ((p : ℤ) → size_at p l ≡ size_at p m) → l ≡ m
unfolding size_at
IsLadder-ext [] [] a a' h = refl
IsLadder-ext [] ((r, s) ∷ m) a a' h = ground (arith, h r)
IsLadder-ext ((r, s) ∷ l) [] a a' h = ground (arith, h r)
IsLadder-ext ((r, s) ∷ l) ((r', s') ∷ m) (k, a) (k', a') h =
    let (same_p, same_q) = Above-heads r s r' s' l m k a k' a' h in
    let above : Above r m = subst (λ x. Above x m) (sym same_p) a' in
    let alike =
      subst (λ x. (p : ℤ) → size_at p ((r, s) ∷ l) ≡ size_at p ((x, s') ∷ m)) (sym same_p) h in
    let tails =
      IsLadder-ext l m (IsLadder-tail r s l a) (IsLadder-tail r s' m above)
        (Above-tails r s s' l m a above alike) in
    cc
