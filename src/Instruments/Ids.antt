-- ===== src/Instruments/Ids.antt =====
-- crates/domain/instruments/src/{ids,isin}.rs: external identifiers and the check of an ISIN.
use Prim.Native.Char.{Char, code}
use Prim.Native.String.{String, len, char_at}
use shinrai_trade.Common.{
  ℕ, ◌+◌, ◌-◌, ◌*◌, ◌/◌, ◌%◌, ◌≡◌, ◌↔◌, arith, Bool, true, false, not, ◌&&◌, ◌||◌, Option, none,
  some, List, [], ◌∷◌, if◌then◌else◌, Result, ok, err, ltb, leb, nat_beq, Eq, ◌==◌, string_eq,
}
use shinrai_trade.Common.Text.{trim, is_empty_text}
use shinrai_trade.Instruments.Grid.{InstrumentError}

pub data IdType : Type 0 where
  isin figi cusip ticker broker_symbol other : IdType

pub record ExternalId : Type 0 where
  pub id_type : IdType
  pub value : String
  pub venue : Option String

abbrev within : ℕ → ℕ → Char → Bool
within lo hi c = leb lo (code c) && leb (code c) hi

-- `to_ascii_uppercase`
abbrev upper_char : Char → Char
upper_char c =
    if within b'a' b'z' c then char_at "ABCDEFGHIJKLMNOPQRSTUVWXYZ" (code c - b'a') else c

unfoldable pub to_ascii_uppercase : String → String
to_ascii_uppercase String.[] = String.[]
to_ascii_uppercase (String.◌∷◌ c s) = String.◌∷◌ (upper_char c) (to_ascii_uppercase s)

abbrev normalize_value : IdType → String → String
normalize_value IdType.other value = value
normalize_value _ value = to_ascii_uppercase value

abbrev normalize_venue : Option String → Option String
normalize_venue none = none
normalize_venue (some v) =
    if is_empty_text (trim v) then none else some (to_ascii_uppercase (trim v))

-- `ExternalId::new`
unfoldable pub new_external : IdType → String → Option String → Result InstrumentError ExternalId
unfolding trim to_ascii_uppercase
new_external id_type value venue =
    if is_empty_text (trim value)
    then err InstrumentError.invalid_identifier
    else ok (record {
      id_type = id_type;
      value = normalize_value id_type (trim value);
      venue = normalize_venue venue;
    })

abbrev pub type_code : IdType → ℕ
type_code IdType.isin = 0
type_code IdType.figi = 1
type_code IdType.cusip = 2
type_code IdType.ticker = 3
type_code IdType.broker_symbol = 4
type_code IdType.other = 5

unfoldable pub all_alphanumeric : String → Bool
all_alphanumeric String.[] = true
all_alphanumeric (String.◌∷◌ c s) =
    (within b'0' b'9' c || within b'A' b'Z' c || within b'a' b'z' c) && all_alphanumeric s

-- `&upper[..11]` and the byte after it, of a text of twelve characters.
unfoldable pub body_and_check : String → String × ℕ
body_and_check String.[] = (String.[], 0)
body_and_check (String.◌∷◌ c s) =
    let (body, check) = body_and_check s in
    if is_empty_text s then (String.[], code c) else (String.◌∷◌ c body, check)

-- Letters become two digits.
unfoldable pub expand : String → Option (List ℕ)
expand String.[] = some []
expand (String.◌∷◌ c s) =
    let rest = expand s in
    if within b'0' b'9' c
    then elim rest [ none ↦ none | some ds ↦ some ((code c - b'0') ∷ ds) ]
    else if within b'A' b'Z' c
    then elim rest [
      | none ↦ none
      | some ds ↦ some (((code c - 55) / 10) ∷ ((code c - 55) % 10) ∷ ds)
    ]
    else none

abbrev doubled : ℕ → ℕ
doubled d = if ltb 9 (d * 2) then d * 2 - 9 else d * 2

-- The sum from the right, where the last digit is doubled, then every second one: with it,
-- whether the next digit to the left is doubled.
unfoldable pub luhn : List ℕ → ℕ × Bool
luhn [] = (0, true)
luhn (d ∷ ds) = let (sum, double) = luhn ds in ((if double then doubled d else d) + sum, not double)

unfoldable pub check_digit : String → Option ℕ
unfolding expand luhn
check_digit body = elim (expand body) [
  | none ↦ none
  | some digits ↦ some (b'0' + (10 - (luhn digits).0 % 10) % 10)
]

abbrev same_check : Option ℕ → ℕ → Result InstrumentError (Unit {0})
same_check none check = err InstrumentError.invalid_isin
same_check (some expected) check =
    if nat_beq check expected then ok tt else err InstrumentError.invalid_isin

unfoldable pub validate_isin : String → Result InstrumentError (Unit {0})
unfolding trim to_ascii_uppercase all_alphanumeric body_and_check check_digit
validate_isin text =
    let isin = trim text in
    let (body, check) = body_and_check (to_ascii_uppercase isin) in
    if not (nat_beq (len isin) 12) || not (all_alphanumeric isin)
    then err InstrumentError.invalid_isin
    else same_check (check_digit body) check

-- `#[derive(PartialEq, Eq, Hash)]`
abbrev venue_beq : Option String → Option String → Bool
venue_beq none none = true
venue_beq (some a) (some b) = a == b
venue_beq _ _ = false

venue_beq_iff : (a b : Option String) → (venue_beq a b ≡ true) ↔ (a ≡ b)
venue_beq_iff none none = ground arith
venue_beq_iff none (some b) = ground arith
venue_beq_iff (some a) none = ground arith
venue_beq_iff (some a) (some b) = ground (arith, string_eq.beq_iff a b)

type_code_iff : (a b : IdType) → (nat_beq (type_code a) (type_code b) ≡ true) ↔ (a ≡ b)
type_code_iff a b = ground arith

abbrev pub external_beq : ExternalId → ExternalId → Bool
external_beq a b =
    nat_beq (type_code a.id_type) (type_code b.id_type)
    && a.value == b.value
    && venue_beq a.venue b.venue

pub external_beq_iff : (a b : ExternalId) → (external_beq a b ≡ true) ↔ (a ≡ b)
external_beq_iff a b = ground (
  arith,
  type_code_iff a.id_type b.id_type,
  string_eq.beq_iff a.value b.value,
  venue_beq_iff a.venue b.venue,
)

instance abbrev pub external_eq : Eq ExternalId
external_eq = record { beq = external_beq; beq_iff = external_beq_iff }
