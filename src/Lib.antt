-- ===== src/Lib.antt =====
-- A verification library for the trading domain of Shinrai Trade, the crates under crates/domain.
--
-- The program takes orders through a pre-trade risk check into an idempotent order store, whose
-- orders move by venue events through an explicit state machine; money and positions are kept in a
-- double-entry ledger, on which the paper book keeps each customer's available and reserved cash;
-- market data arrives as numbered records, which a consumer applies strictly in sequence.
--
-- Common holds what the parts share: integers with the ranges of Rust's types and their checked,
-- saturating and wrapping operations (Common/Int), hash tables as association lists (Common/Maps),
-- hash sets as lists (Common/Sets), results and the do-notation on them (Common/Outcome), and
-- `str::trim` (Common/Text).
--
-- Orders is crates/domain/orders/src. Status has the enums and ids of status.rs, event.rs, ids.rs
-- and error.rs; Aggregate the struct `Order` and its methods from order.rs; Transition the function
-- `apply` of transition.rs, with its match as `dispatch`; Store the `OrderStore` of store.rs
-- (`submit`, `apply_event`, `restore_order`, `bump_next_id_past`). Invariant says what a valid order
-- is and Preserve that events keep it; AvgPx and Fill are about fills, Graph about the transition
-- diagram, Traces, Dedupe and AvgTraces about event lists, StoreInvariant, StoreLaws and StoreReach
-- about the store.
--
-- Money is crates/domain/money/src: an amount is an integer of minor units in a currency. Ledger is
-- account.rs, posting.rs, entry.rs and journal.rs of crates/domain/ledger/src: Entry has the accounts
-- and the builder (`build`, `reverse`), Journal the append-only journal (`post`). Balance and Build
-- are about the builder, Effect, Conservation and Replay about the journal. Paper is paper.rs beside
-- them: Book has the state and the queries, Cash the commands `deposit`, `withdraw`,
-- `reserve_for_order` and `release_reserve`, Settle the commands `settle_buy`, `settle_sell`,
-- `reserve_position_for_order` and `release_position_reserve`. Transfer, CashLaws and Holds have the
-- contracts of the cash commands, Solvent their invariant, Lots and LotsStep the invariant of the
-- lots, and SellFee what a fee does to the settlement of a sell.
--
-- Risk is crates/domain/risk/src: Engine has the limits and the control plane of `RiskEngine`, Gates
-- its `check`, one function for each guard in the order of the code, Rules and Approval what it approves, and
-- Snapshot the durable snapshot.
--
-- Feed is crates/domain/market-data/src: Consumer has record.rs and `MdConsumerState` of
-- consumer.rs, Contract the states of one feed, Steps and Refinement that `apply` takes the steps of
-- the contract, and Replay the function `replay` of replay.rs.
--
-- Book is book.rs and checksum.rs beside them: Levels has one side of a book, a sorted map as a list,
-- Digest the FNV digest, Model the books, their events and `BookEngine`. Shape and Invariant have what
-- holds of every book, Rebuild what a snapshot does, and Depth the sizes after a delta. Bars is bar.rs:
-- Bar has the candles, Aggregator the store and `BarAggregator`, Shape and Invariant what holds of every
-- candle.
--
-- Audit is crates/domain/audit/src/lib.rs: Record has the rows and `compute_content_hash`, Log the
-- `AuditLog`. SHA-256 is a parameter from bytes to bytes; where a theorem needs its results to have 32
-- bytes, it says so. Chain has the invariant of the log and its pages, Restart `restore`, Digits and
-- Binding what the last hash binds, and Alias what it does not.
--
-- Instruments is crates/domain/instruments/src: Grid has error.rs and the tick tables of grid.rs, Lots
-- its lot specifications, Decimal `parse_scaled`, `format_scaled` and the conversions on them, Ids is
-- ids.rs and isin.rs, Product types.rs and instrument.rs, Master master.rs. Bands is about the bands of
-- a price, LotLaws about quantities and lots, Digits, Reading and RoundTrip about decimals, and Index
-- about the aliases of the master.
--
-- Portfolio is crates/domain/portfolio/src, with crates/domain/paper/src/notional.rs in Notional:
-- Inventory has `inventory_from_orders`, Marks the `MarkStore`. Sale is about the cost that a sale takes
-- with it, Positive about the sign of a notional, Flow and Profit about the money that the fills moved.
--
-- A method on `&mut self` is a function that returns its result and the new state, on an error as
-- well. Numbers of a machine type are the integers they stand for: an operation that the code checks,
-- saturates or lets wrap (as a release build does) is written so, and where a theorem needs a value to
-- be in the range of its type, it says so (`Fits`). Loops are over lists, by structural recursion. Only
-- `to_digits`, which writes a number in decimals, takes fuel: it is 20, and a number below 10 ^ 20, as
-- every `u64` is, has no more digits. Hash tables and sets are lists whose order nothing depends on.
--
-- Not modelled: parsing and display of amounts, names for display, environment variables, the digest
-- of a replay, `build_snapshot` of the portfolio and the paper engine; and the protocol adapters, databases, brokers
-- and services, which are input and output around the domain.
pub mod Audit
pub mod Bars
pub mod Book
pub mod Common
pub mod Feed
pub mod Instruments
pub mod Ledger
pub mod Money
pub mod Orders
pub mod Paper
pub mod Portfolio
pub mod Risk
