-- ===== src/Exchange/Order.antt =====
-- `Order` of `pyflex/zrx.py`: its prices, its remaining amounts and its JSON form.
use Prim.Native.String.{String}
use text.Mathlib.Text.{◌==◌ as same_text}
use pyflex.Base.{
  ℕ, Bool, true, false, not, ◌&&◌, ◌==◌, if◌then◌else◌, List, [], ◌∷◌, Option, none, some,
}
use pyflex.Base.Int.{ℤ, pos, eqb_ℤ}
use pyflex.Base.Results.{
  Result, ok, err, ◌>>=◌, map_result, assertion_error, key_error, value_error, type_error,
}
use pyflex.Numeric.Value.{Value}
use pyflex.Numeric.Wad
use pyflex.Numeric.Classes.{wad}
use pyflex.Numeric.Amount.{Amount, amount, of_int, times, over, minus, less, same}
use pyflex.Chain.{same_octets}

-- A signature; its hexadecimal texts are given by their bytes.
pub record Signature : Type 0 where
  pub r : List ℕ
  pub s : List ℕ
  pub v : ℤ

pub record Order : Type 0 where
  pub maker : ℕ
  pub taker : ℕ
  pub maker_fee : Amount wad
  pub taker_fee : Amount wad
  pub pay_token : ℕ
  pub pay_amount : Amount wad
  pub buy_token : ℕ
  pub buy_amount : Amount wad
  pub salt : ℤ
  pub fee_recipient : ℕ
  pub expiration : ℤ
  pub exchange_contract_address : ℕ
  pub signature : Option Signature

unfoldable pub sell_to_buy_price : Order → Result (Amount wad)
sell_to_buy_price order = over order.pay_amount order.buy_amount

unfoldable pub buy_to_sell_price : Order → Result (Amount wad)
buy_to_sell_price order = over order.buy_amount order.pay_amount

-- `Wad.max(a, Wad(0))`
unfoldable pub or_zero : Amount wad → Result (Amount wad)
unfolding Wad.max
or_zero a = map_result amount (Wad.max a.value (Value.wad (pos 0) ∷ []))

-- Both are given what the exchange says of the amount that is no longer available.
unfoldable pub remaining_buy_amount : Result (Amount wad) → Order → Result (Amount wad)
unfolding or_zero minus
remaining_buy_amount unavailable order =
    unavailable >>= λ taken. or_zero (minus order.buy_amount taken)

unfoldable pub remaining_after : Order → Amount wad → Bool → Result (Amount wad)
unfolding or_zero minus
remaining_after order taken true = ok (amount (pos 0))
remaining_after order taken false = do
  product ← times {c = wad} {d = wad} taken order.pay_amount
  share ← over product order.buy_amount
  or_zero (minus order.pay_amount share)

unfoldable pub remaining_sell_amount : Result (Amount wad) → Order → Result (Amount wad)
unfolding remaining_after
remaining_sell_amount unavailable order =
    unavailable >>= λ taken. remaining_after order taken (not (less taken order.buy_amount))

-- JSON as far as an order has it: texts, integers, nothing, and an object of these.
pub data Scalar (Text : Type 0) : Type 0 where
  words : Text → Scalar Text
  hexadecimal : List ℕ → Scalar Text
  integer : ℤ → Scalar Text
  null : Scalar Text

pub data Json (Text : Type 0) : Type 0 where
  scalar : Scalar Text → Json Text
  object : List (String × Scalar Text) → Json Text

-- Python's `str` and `int` on integers, and the texts of addresses: lower case, and `Address`.
pub record Texts (Text : Type 0) : Type 0 where
  pub str : ℤ → Text
  pub int : Text → Result ℤ
  pub lower : ℕ → Text
  pub address : Text → Result ℕ

unfoldable pub field : {A : Type 0} → String → List (String × A) → Result A
field name [] = err key_error
field name ((k, v) ∷ fields) =
    let rest = field name fields in if same_text k name then ok v else rest

module _ {Text : Type 0} (texts : Texts Text) where
  -- `int(data[name])` and `Address(data[name])`
  unfoldable pub int_at : String → List (String × Json Text) → Result ℤ
  unfolding field
  int_at name data_ = field name data_ >>= read
    where
      read : Json Text → Result ℤ
      read (scalar (words t)) = texts.int t
      read (scalar (integer n)) = ok n
      read (scalar (hexadecimal b)) = err value_error
      read (scalar null) = err type_error
      read (object o) = err type_error

  unfoldable pub address_at : String → List (String × Json Text) → Result ℕ
  unfolding field
  address_at name data_ = field name data_ >>= read
    where
      read : Json Text → Result ℕ
      read (scalar (words t)) = texts.address t
      read (scalar (integer n)) = err value_error
      read (scalar (hexadecimal b)) = err value_error
      read (scalar null) = err value_error
      read (object o) = err value_error

  unfoldable pub wad_at : String → List (String × Json Text) → Result (Amount wad)
  unfolding int_at
  wad_at name data_ = int_at name data_ >>= of_int

-- The three parts of a signature are there together or not at all, by the constructor's assertion.
unfoldable pub signature_of :
    {Text : Type 0} → Scalar Text → Scalar Text → Scalar Text → Result (Option Signature)
signature_of (hexadecimal r) (hexadecimal s) (integer v) =
    ok (some (record { r = r; s = s; v = v }))
signature_of null null null = ok none
signature_of _ _ _ = err assertion_error

unfoldable pub signature_in : {Text : Type 0} → Result (Json Text) → Result (Option Signature)
unfolding field signature_of
signature_in (err missing) = ok none
signature_in (ok (scalar s)) = err type_error
signature_in (ok (object o)) = do
  r ← field "r" o
  s ← field "s" o
  v ← field "v" o
  signature_of r s v

unfoldable pub from_json : {Text : Type 0} → Texts Text → List (String × Json Text) → Result Order
unfolding address_at wad_at signature_in
from_json texts data_ = do
  maker ← address_at texts "maker" data_
  taker ← address_at texts "taker" data_
  maker_fee ← wad_at texts "makerFee" data_
  taker_fee ← wad_at texts "takerFee" data_
  pay_token ← address_at texts "makerTokenAddress" data_
  pay_amount ← wad_at texts "makerTokenAmount" data_
  buy_token ← address_at texts "takerTokenAddress" data_
  buy_amount ← wad_at texts "takerTokenAmount" data_
  salt ← int_at texts "salt" data_
  fee_recipient ← address_at texts "feeRecipient" data_
  expiration ← int_at texts "expirationUnixTimestampSec" data_
  exchange_contract_address ← address_at texts "exchangeContractAddress" data_
  signature ← signature_in (field "ecSignature" data_)
  ok (record {
    maker = maker;
    taker = taker;
    maker_fee = maker_fee;
    taker_fee = taker_fee;
    pay_token = pay_token;
    pay_amount = pay_amount;
    buy_token = buy_token;
    buy_amount = buy_amount;
    salt = salt;
    fee_recipient = fee_recipient;
    expiration = expiration;
    exchange_contract_address = exchange_contract_address;
    signature = signature;
  })

unfoldable pub to_json_without_fees :
    {Text : Type 0} → Texts Text → Order → List (String × Json Text)
to_json_without_fees texts order =
    ("exchangeContractAddress", scalar (words (texts.lower order.exchange_contract_address)))
    ∷ ("maker", scalar (words (texts.lower order.maker)))
    ∷ ("taker", scalar (words (texts.lower order.taker)))
    ∷ ("makerTokenAddress", scalar (words (texts.lower order.pay_token)))
    ∷ ("takerTokenAddress", scalar (words (texts.lower order.buy_token)))
    ∷ ("makerTokenAmount", scalar (words (texts.str order.pay_amount.value)))
    ∷ ("takerTokenAmount", scalar (words (texts.str order.buy_amount.value)))
    ∷ ("expirationUnixTimestampSec", scalar (words (texts.str order.expiration)))
    ∷ ("salt", scalar (words (texts.str order.salt)))
    ∷ []

unfoldable pub signature_json : {Text : Type 0} → Option Signature → List (String × Scalar Text)
signature_json none = ("r", null) ∷ ("s", null) ∷ ("v", null) ∷ []
signature_json (some signature) =
    ("r", hexadecimal signature.r)
    ∷ ("s", hexadecimal signature.s)
    ∷ ("v", integer signature.v)
    ∷ []

unfoldable pub to_json : {Text : Type 0} → Texts Text → Order → List (String × Json Text)
unfolding signature_json
to_json texts order =
    ("exchangeContractAddress", scalar (words (texts.lower order.exchange_contract_address)))
    ∷ ("maker", scalar (words (texts.lower order.maker)))
    ∷ ("taker", scalar (words (texts.lower order.taker)))
    ∷ ("makerTokenAddress", scalar (words (texts.lower order.pay_token)))
    ∷ ("takerTokenAddress", scalar (words (texts.lower order.buy_token)))
    ∷ ("feeRecipient", scalar (words (texts.lower order.fee_recipient)))
    ∷ ("makerTokenAmount", scalar (words (texts.str order.pay_amount.value)))
    ∷ ("takerTokenAmount", scalar (words (texts.str order.buy_amount.value)))
    ∷ ("makerFee", scalar (words (texts.str order.maker_fee.value)))
    ∷ ("takerFee", scalar (words (texts.str order.taker_fee.value)))
    ∷ ("expirationUnixTimestampSec", scalar (words (texts.str order.expiration)))
    ∷ ("salt", scalar (words (texts.str order.salt)))
    ∷ ("ecSignature", object (signature_json order.signature))
    ∷ []

unfoldable same_signature : Option Signature → Option Signature → Bool
same_signature none none = true
same_signature (some a) (some b) = same_octets a.r b.r && (same_octets a.s b.s && eqb_ℤ a.v b.v)
same_signature none (some b) = false
same_signature (some a) none = false

-- `__eq__`
unfoldable pub eq_order : Order → Order → Bool
unfolding same_signature same_octets
eq_order a b =
    (a.maker == b.maker)
    && ((a.taker == b.taker)
        && (same a.maker_fee b.maker_fee
            && (same a.taker_fee b.taker_fee
                && ((a.pay_token == b.pay_token)
                    && (same a.pay_amount b.pay_amount
                        && ((a.buy_token == b.buy_token)
                            && (same a.buy_amount b.buy_amount
                                && (eqb_ℤ a.salt b.salt
                                    && ((a.fee_recipient == b.fee_recipient)
                                        && (eqb_ℤ a.expiration b.expiration
                                            && ((a.exchange_contract_address
                                                  == b.exchange_contract_address)
                                                && same_signature a.signature b.signature)))))))))))
