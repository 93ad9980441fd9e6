-- ===== src/Instruments/Bands.antt =====
-- crates/domain/instruments/src/grid.rs: a price has one band of an accepted table.
use mathlib.Core.Path.{subst}
use shinrai_trade.Common.{
  sym, ℕ, Bool, true, false, ◌&&◌, ◌≡◌, inl, inr, refl, arith, Option, none, some, List, [], ◌∷◌,
  All, Result, ok, err, Result-cases, Bool-cases, Option-cases,
}
use shinrai_trade.Common.Int.{ℤ, pos, ◌<ℤ◌, ltb_ℤ, leb_ℤ}
use shinrai_trade.Instruments.Grid.{
  InstrumentError, TickBand, TickTable, new_band, contains_price, check_window, check_windows,
  new_table, find_band, band_for,
}

abbrev IsBelow : ℤ → Option ℤ → Type 0
IsBelow a none = Unit
IsBelow a (some b) = a <ℤ b

-- What `TickBand::new` accepts.
abbrev pub IsBand : TickBand → Type 0
IsBand b = (pos 0 <ℤ b.tick_size) × IsBelow b.min b.max

pub new_band-IsBand :
    (min : ℤ) (max : Option ℤ) (tick : ℤ) (b : TickBand) → new_band min max tick ≡ ok b → IsBand b
unfolding new_band
new_band-IsBand min none tick b h = ground arith
new_band-IsBand min (some max) tick b h = ground arith

abbrev below_last : List TickBand → ℤ → Bool
below_last [] p = false
below_last (b ∷ []) p = elim b.max [ none ↦ true | some m ↦ ltb_ℤ p m ]
below_last (b ∷ c ∷ bs) p = below_last (c ∷ bs) p

-- From the first lower bound up to the last upper bound.
abbrev pub covers : List TickBand → ℤ → Bool
covers [] p = false
covers (b ∷ bs) p = leb_ℤ b.min p && below_last (b ∷ bs) p

abbrev pub is_ok : Result InstrumentError TickBand → Bool
is_ok (ok b) = true
is_ok (err e) = false

check_window_inv :
    (m : Option ℤ) (l r : ℤ) (u : Unit {0})
    → check_window m l r ≡ ok u
    → IsBelow l m
    → (m ≡ some r) × (l <ℤ r)
check_window_inv none l r u h k = ground arith
check_window_inv (some m) l r u h k = ground arith

check_windows_inv :
    (b c : TickBand) (cs : List TickBand) (u : Unit {0})
    → check_windows (b ∷ c ∷ cs) ≡ ok u
    → IsBand b
    → (b.max ≡ some c.min) × (b.min <ℤ c.min) × (check_windows (c ∷ cs) ≡ ok u)
unfolding check_windows
check_windows_inv b c cs u h (tick, k) = elim (Result-cases (check_window b.max b.min c.min)) [
  | inr (e, failed) ↦ ground arith
  | inl (v, passed) ↦
      let (top, lt) = check_window_inv b.max b.min c.min v passed k in (top, lt, ground arith)
]

-- A price below the first band is in none.
none_below :
    (b : TickBand) (bs : List TickBand) (u : Unit {0}) (p : ℤ)
    → All IsBand (b ∷ bs)
    → check_windows (b ∷ bs) ≡ ok u
    → p <ℤ b.min
    → All (λ c. contains_price c p ≡ false) (b ∷ bs)
unfolding contains_price
none_below b [] u p k h lt = (ground arith, tt)
none_below b (c ∷ cs) u p (k, ks) h lt =
    let (top, more, rest) = check_windows_inv b c cs u h k in
    (ground arith, none_below c cs u p ks rest (omega arith))

below_max :
    (m : Option ℤ) (l p : ℤ)
    → IsBelow l m
    → p <ℤ l
    → elim m [ none ↦ true | some n ↦ ltb_ℤ p n ] ≡ true
below_max none l p k lt = refl
below_max (some n) l p k lt = ground arith

below_last-below :
    (b : TickBand) (bs : List TickBand) (u : Unit {0}) (p : ℤ)
    → All IsBand (b ∷ bs)
    → check_windows (b ∷ bs) ≡ ok u
    → p <ℤ b.min
    → below_last (b ∷ bs) p ≡ true
below_last-below b [] u p (k, ks) h lt = below_max b.max b.min p k.1 lt
below_last-below b (c ∷ cs) u p (k, ks) h lt =
    let (top, more, rest) = check_windows_inv b c cs u h k in
    below_last-below c cs u p ks rest (omega arith)

find_band-only :
    (q : Result InstrumentError TickBand) (bs : List TickBand) (p : ℤ)
    → All (λ c. contains_price c p ≡ false) bs
    → All (λ c. contains_price c p ≡ true → q ≡ ok c) bs
find_band-only q [] p k = tt
find_band-only q (b ∷ bs) p (k, ks) = ((λ h. ground arith), find_band-only q bs p ks)

contains_price_lem :
    (b : TickBand) (m p : ℤ) → b.max ≡ some m → contains_price b p ≡ (leb_ℤ b.min p && ltb_ℤ p m)
unfolding contains_price
contains_price_lem b m p h = rw h (ground arith)

-- The first band that holds the price is the only one.
find_band_unique :
    (b : TickBand) (bs : List TickBand) (u : Unit {0}) (p : ℤ)
    → All IsBand (b ∷ bs)
    → check_windows (b ∷ bs) ≡ ok u
    → All (λ c. contains_price c p ≡ true → find_band (b ∷ bs) p ≡ ok c) (b ∷ bs)
unfolding find_band
find_band_unique b [] u p k h = ((λ e. rw e refl), tt)
find_band_unique b (c ∷ cs) u p (k, ks) h =
    let (top, more, rest) = check_windows_inv b c cs u h k in
    elim (Bool-cases (contains_price b p)) [
      | inl inside ↦
          let found : find_band (b ∷ c ∷ cs) p ≡ ok b = rw inside refl in
          (
            (λ e. found),
            subst (λ q. All (λ d. contains_price d p ≡ true → q ≡ ok d) (c ∷ cs)) (sym found)
                (find_band-only (ok b) (c ∷ cs) p
                  (none_below c cs u p ks rest (ground (arith, contains_price_lem b c.min p top)))),
          )
      | inr outside ↦
          let found : find_band (b ∷ c ∷ cs) p ≡ find_band (c ∷ cs) p = rw outside refl in
          (
            (λ e. ground arith),
            subst (λ q. All (λ d. contains_price d p ≡ true → q ≡ ok d) (c ∷ cs)) (sym found)
                (find_band_unique c cs u p ks rest),
          )
    ]

is_ok-find_band :
    (b : TickBand) (bs : List TickBand) (u : Unit {0}) (p : ℤ)
    → All IsBand (b ∷ bs)
    → check_windows (b ∷ bs) ≡ ok u
    → is_ok (find_band (b ∷ bs) p) ≡ covers (b ∷ bs) p
unfolding find_band contains_price
is_ok-find_band b [] u p k h = elim (Option-cases b.max) [
  | inl top ↦ rw top (ground arith)
  | inr (m, top) ↦ rw top (ground arith)
]
is_ok-find_band b (c ∷ cs) u p (k, ks) h =
    let (top, more, rest) = check_windows_inv b c cs u h k in
    ground (
      arith,
      contains_price_lem b c.min p top,
      is_ok-find_band c cs u p ks rest,
      below_last-below c cs u p ks rest,
    )

-- In an accepted table of tick bands that each have a positive tick and an upper bound, if
-- any, above the lower: a price has a band just if it is at least the first lower bound and
-- below the last upper bound, if there is one, and any band that holds the price is the one
-- found.
pub find_band_lem :
    (scale : ℕ) (bands : List TickBand) (t : TickTable) (p : ℤ)
    → All IsBand bands
    → new_table scale bands ≡ ok t
    → (is_ok (band_for t p) ≡ covers bands p)
      × All (λ c. contains_price c p ≡ true → band_for t p ≡ ok c) bands
unfolding new_table
find_band_lem scale [] t p k h = ground arith
find_band_lem scale (b ∷ bs) t p k h = elim (Result-cases (check_windows (b ∷ bs))) [
  | inr (e, failed) ↦ ground arith
  | inl (u, passed) ↦
      let same : t.bands ≡ b ∷ bs = ground arith in
      subst
        (λ x.
          (is_ok (find_band x p) ≡ covers (b ∷ bs) p)
          × All (λ c. contains_price c p ≡ true → find_band x p ≡ ok c) (b ∷ bs))
        (sym same) (is_ok-find_band b bs u p k passed, find_band_unique b bs u p k passed)
]
