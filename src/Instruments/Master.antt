-- ===== src/Instruments/Master.antt =====
-- crates/domain/instruments/src/master.rs: the instruments by id, with an index of their aliases.
use shinrai_trade.Common.{
  none, some, List, [], ◌∷◌, if◌then◌else◌, Result, ok, err, ok_or, nat_eq, map,
}
use shinrai_trade.Common.Maps.{Map, get, insert, contains}
use shinrai_trade.Common.Sets.{sort}
use shinrai_trade.Ledger.Entry.{InstrumentId}
use shinrai_trade.Instruments.Grid.{InstrumentError}
use shinrai_trade.Instruments.Ids.{ExternalId, external_eq}
use shinrai_trade.Instruments.Product.{Instrument}

pub record InstrumentMaster : Type 0 where
  pub by_id : Map InstrumentId Instrument
  pub by_alias : Map ExternalId InstrumentId

abbrev pub new_master : InstrumentMaster
new_master = record { by_id = []; by_alias = [] }

unfoldable pub check_aliases :
    List ExternalId → Map ExternalId InstrumentId → Result InstrumentError (Unit {0})
check_aliases [] m = ok tt
check_aliases (a ∷ others) m =
    let rest = check_aliases others m in
    elim (get a m) [ none ↦ rest | some existing ↦ err (InstrumentError.duplicate_alias existing) ]

unfoldable pub index_aliases :
    List ExternalId → InstrumentId → Map ExternalId InstrumentId → Map ExternalId InstrumentId
index_aliases [] i m = m
index_aliases (a ∷ others) i m = index_aliases others i (insert a i m)

abbrev indexed : InstrumentMaster → Instrument → InstrumentMaster
indexed m i = record {
  by_id = insert i.id i m.by_id;
  by_alias = index_aliases i.identifiers i.id m.by_alias;
}

-- `InstrumentMaster::insert`
unfoldable pub insert_instrument :
    InstrumentMaster → Instrument → Result InstrumentError (Unit {0}) × InstrumentMaster
unfolding check_aliases index_aliases
insert_instrument m i =
    if contains i.id m.by_id
    then (err (InstrumentError.duplicate_instrument i.id), m)
    else elim (check_aliases i.identifiers m.by_alias) [
      | err e ↦ (err e, m)
      | ok _ ↦ (ok tt, indexed m i)
    ]

unfoldable pub resolve_alias : InstrumentMaster → ExternalId → Result InstrumentError InstrumentId
resolve_alias m a = ok_or (get a m.by_alias) InstrumentError.unknown_alias

unfoldable pub instrument_of : InstrumentMaster → InstrumentId → Result InstrumentError Instrument
instrument_of m i = ok_or (get i m.by_id) (InstrumentError.unknown_instrument i)

abbrev key_of : InstrumentId × Instrument → InstrumentId
key_of (i, x) = i

unfoldable pub sorted_ids : InstrumentMaster → List InstrumentId
sorted_ids m = sort (map key_of m.by_id)
