-- ===== src/Instruments/Index.antt =====
-- crates/domain/instruments/src/master.rs: the aliases and the instruments agree.
use mathlib.Core.Path.{subst}
use shinrai_trade.Common.{
  true, false, ◌≡◌, ◌≢◌, ◌⊎◌, inl, inr, refl, sym, ap, ◌∙◌, arith, none, some, Option-cases, List,
  [], ◌∷◌, if◌then◌else◌, ok, Result-cases, Bool-cases, nat_eq,
}
use shinrai_trade.Common.Maps.{
  Map, get, insert, contains, get-insert, get-insert_inv, get-insert_self, get-insert_ne,
}
use shinrai_trade.Common.Sets.{member}
use shinrai_trade.Ledger.Entry.{InstrumentId}
use shinrai_trade.Instruments.Ids.{ExternalId, external_eq, external_beq_iff}
use shinrai_trade.Instruments.Product.{Instrument}
use shinrai_trade.Instruments.Master.{
  InstrumentMaster, new_master, check_aliases, index_aliases, insert_instrument,
}

-- Each instrument stands under its id, its aliases lead to it, and no others do.
pub record IsIndexed (m : InstrumentMaster) : Type 0 where
  pub own_id : (i : InstrumentId) (x : Instrument) → get i m.by_id ≡ some x → x.id ≡ i
  pub aliased :
      (i : InstrumentId) (x : Instrument) (a : ExternalId)
      → get i m.by_id ≡ some x
      → member a x.identifiers ≡ true
      → get a m.by_alias ≡ some i
  pub known :
      (a : ExternalId) (i : InstrumentId)
      → get a m.by_alias ≡ some i
      → (x : Instrument) × (get i m.by_id ≡ some x) × (member a x.identifiers ≡ true)

get-index_aliases :
    (a : ExternalId) (names : List ExternalId) (i : InstrumentId) (m : Map ExternalId InstrumentId)
    → get a (index_aliases names i m) ≡ (if member a names then some i else get a m)
unfolding index_aliases member
get-index_aliases a [] i m = refl
get-index_aliases a (b ∷ bs) i m =
    ground (arith, get-index_aliases a bs i (insert b i m), get-insert b a i m)

check_aliases_inv :
    (names : List ExternalId) (m : Map ExternalId InstrumentId) (u : Unit {0}) (a : ExternalId)
    → check_aliases names m ≡ ok u
    → member a names ≡ true
    → get a m ≡ none
unfolding check_aliases member
check_aliases_inv [] m u a h k = ground arith
check_aliases_inv (b ∷ bs) m u a h k =
    ground
      (arith, external_beq_iff b a, check_aliases_inv bs m u a, ap (λ x. get x m) {x = b} {y = a})

module _ (m : InstrumentMaster) (x : Instrument) (u : Unit {0}) (c : IsIndexed m)
    (fresh : get x.id m.by_id ≡ none) (free : check_aliases x.identifiers m.by_alias ≡ ok u) where
  old_id : (i : InstrumentId) (y : Instrument) → get i m.by_id ≡ some y → x.id ≢ i
  old_id i y h e = ground (arith, ap (λ k. get k m.by_id) e)

  own_kept : (i : InstrumentId) (y : Instrument) → get i (insert x.id x m.by_id) ≡ some y → y.id ≡ i
  own_kept i y h = elim (get-insert_inv x.id i x y m.by_id h) [
    | inl (key, value) ↦ ap (λ z. z.id) (sym value) ∙ key
    | inr (other, old) ↦ c.own_id i y old
  ]

  aliased_kept :
      (i : InstrumentId) (y : Instrument) (a : ExternalId)
      → get i (insert x.id x m.by_id) ≡ some y
      → member a y.identifiers ≡ true
      → get a (index_aliases x.identifiers x.id m.by_alias) ≡ some i
  aliased_kept i y a h k = elim (get-insert_inv x.id i x y m.by_id h) [
    | inl (key, value) ↦
        let mine : member a x.identifiers ≡ true = ap (λ z. member a z.identifiers) value ∙ k in
        get-index_aliases a x.identifiers x.id m.by_alias ∙ rw mine (ap some key)
    | inr (other, old) ↦ ground (
      arith,
      c.aliased i y a old k,
      check_aliases_inv x.identifiers m.by_alias u a free,
      get-index_aliases a x.identifiers x.id m.by_alias,
    )
  ]

  known_kept :
      (a : ExternalId) (i : InstrumentId)
      → get a (index_aliases x.identifiers x.id m.by_alias) ≡ some i
      → (y : Instrument) × (get i (insert x.id x m.by_id) ≡ some y)
        × (member a y.identifiers ≡ true)
  known_kept a i h = elim (Bool-cases (member a x.identifiers)) [
    | inl mine ↦
        let own : x.id ≡ i = ground (arith, get-index_aliases a x.identifiers x.id m.by_alias) in
        (
          x,
          subst (λ k. get k (insert x.id x m.by_id) ≡ some x) own (get-insert_self x.id x m.by_id),
          mine,
        )
    | inr theirs ↦
        let old : get a m.by_alias ≡ some i =
          ground (arith, get-index_aliases a x.identifiers x.id m.by_alias) in
        let (y, found, has) = c.known a i old in
        (y, get-insert_ne x.id i x m.by_id (old_id i y found) ∙ found, has)
  ]

contains_lem :
    (i : InstrumentId) (m : Map InstrumentId Instrument)
    → ((contains i m ≡ true) × ((y : Instrument) × (get i m ≡ some y)))
      ⊎ ((contains i m ≡ false) × (get i m ≡ none))
unfolding contains
contains_lem i m = elim (Option-cases (get i m)) [
  | inr (y, h) ↦ inl (rw (h, contains) refl, (y, h))
  | inl h ↦ inr (rw (h, contains) refl, h)
]

-- If in the master each instrument stands under its id, each alias of an instrument leads to
-- its id, and each known alias leads to an instrument that has it, then the same holds after
-- any insertion, whatever it answers.
pub insert_instrument-IsIndexed :
    (m : InstrumentMaster) (x : Instrument) → IsIndexed m → IsIndexed (insert_instrument m x).1
unfolding insert_instrument
insert_instrument-IsIndexed m x c = elim (contains_lem x.id m.by_id) [
  | inl (taken, found) ↦ rw (taken, insert_instrument) c
  | inr (absent, fresh) ↦ elim (Result-cases (check_aliases x.identifiers m.by_alias)) [
    | inr (e, clash) ↦ rw (absent, insert_instrument) (rw clash c)
    | inl (u, free) ↦
        rw (absent, insert_instrument)
          (rw free (record {
            own_id = own_kept m x u c fresh free;
            aliased = aliased_kept m x u c fresh free;
            known = known_kept m x u c fresh free;
          }))
  ]
]

pub new_master-IsIndexed : IsIndexed new_master
unfolding get
new_master-IsIndexed = record {
  own_id = λ i x h. ground arith;
  aliased = λ i x a h. ground arith;
  known = λ a i h. ground arith;
}
