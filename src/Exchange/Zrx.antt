-- ===== src/Exchange/Zrx.antt =====
-- `ZrxExchange` and `ZrxRelayerApi` of `pyflex/zrx.py`. Hashing and signing are the contract's and the
-- account's, HTTP is the caller's.
use Prim.Native.String.{String}
use pyflex.Base.{
  ℕ, Bool, true, false, ◌==◌, ◌||◌, if◌then◌else◌, List, [], ◌∷◌, ◌++◌, Option, none, some,
}
use pyflex.Base.Int.{ℤ, pos}
use pyflex.Base.Results.{
  Result, ok, err, ◌>>=◌, ◌>>◌, guard, map_result, traverse, assertion_error, exception,
}
use pyflex.Numeric.Classes.{wad}
use pyflex.Numeric.Amount.{Amount, amount}
use pyflex.Chain.{
  number, numbers, addresses, octets, flag, Call, Contract, transact, zero_address, read,
  read_address, read_amount,
}
use pyflex.Geb.Engine.{bytes_of}
use pyflex.Exchange.Order.{
  Signature, Order, Texts, Json, from_json, to_json, to_json_without_fees, wad_at, address_at,
}

unfoldable pub zrx_token : Contract → Result ℕ
unfolding read_address
zrx_token contract = read_address contract "ZRX_TOKEN_CONTRACT" []

unfoldable pub token_transfer_proxy : Contract → Result ℕ
unfolding read_address
token_transfer_proxy contract = read_address contract "TOKEN_TRANSFER_PROXY_CONTRACT" []

-- `approve`: each token and the ZRX token, for the proxy.
unfoldable pub approve : {R : Type 0} → Contract → (ℕ → ℕ → Result R) → List ℕ → Result (List R)
unfolding zrx_token token_transfer_proxy
approve contract approval_function tokens = do
  zrx ← zrx_token contract
  traverse (λ token. token_transfer_proxy contract >>= λ proxy. approval_function token proxy)
      (tokens ++ (zrx ∷ []))

-- `create_order`, with the account and the salt that it takes.
unfoldable pub create_order :
    (self default_account : ℕ) → (salt : ℤ) → ℕ → Amount wad → ℕ → Amount wad → ℤ → Order
create_order self default_account salt pay_token pay_amount buy_token buy_amount expiration =
    record {
      maker = default_account;
      taker = zero_address;
      maker_fee = amount (pos 0);
      taker_fee = amount (pos 0);
      pay_token = pay_token;
      pay_amount = pay_amount;
      buy_token = buy_token;
      buy_amount = buy_amount;
      salt = salt;
      fee_recipient = zero_address;
      expiration = expiration;
      exchange_contract_address = self;
      signature = none;
    }

unfoldable pub order_values : Order → List ℤ
order_values order =
    order.pay_amount.value ∷ order.buy_amount.value ∷ order.maker_fee.value ∷ order.taker_fee.value
    ∷ order.expiration ∷ order.salt ∷ []

unfoldable pub order_addresses : Order → List ℕ
order_addresses order =
    order.maker ∷ order.taker ∷ order.pay_token ∷ order.buy_token ∷ order.fee_recipient ∷ []

-- The hash is the contract's, for its own orders.
unfoldable pub get_order_hash : (self : ℕ) → Contract → Order → Result (List ℕ)
unfolding order_values order_addresses read bytes_of
get_order_hash self contract order =
    guard (order.exchange_contract_address == self) assertion_error
    >> (read contract "getOrderHash"
          (addresses (order_addresses order) ∷ numbers (order_values order) ∷ [])
        >>= bytes_of)

unfoldable pub get_unavailable_buy_amount : (self : ℕ) → Contract → Order → Result (Amount wad)
unfolding get_order_hash read_amount
get_unavailable_buy_amount self contract order = get_order_hash self contract order >>= λ hash.
    read_amount wad contract "getUnavailableTakerTokenAmount" (octets hash ∷ [])

-- `sign_order`, by the account's signature of bytes.
unfoldable pub sign_order :
    (self : ℕ) → Contract → (eth_sign : List ℕ → Result Signature) → Order → Result Order
unfolding get_order_hash
sign_order self contract eth_sign order = do
  hash ← get_order_hash self contract order
  signature ← eth_sign hash
  ok (record order { signature = some signature })

-- An order without a signature has no bytes of it.
unfoldable pub fill_with : (self : ℕ) → Order → Amount wad → Option Signature → Result Call
unfolding order_values order_addresses
fill_with self order fill_buy_amount none = err assertion_error
fill_with self order fill_buy_amount (some signature) = ok (
    transact self "fillOrder" (
      addresses (order_addresses order)
      ∷ numbers (order_values order)
      ∷ number fill_buy_amount.value
      ∷ flag true
      ∷ number signature.v
      ∷ octets signature.r
      ∷ octets signature.s
      ∷ []))

unfoldable pub fill_order : (self : ℕ) → Order → Amount wad → Result Call
unfolding fill_with
fill_order self order fill_buy_amount = fill_with self order fill_buy_amount order.signature

unfoldable pub cancel_order : (self : ℕ) → Order → Call
unfolding order_values order_addresses
cancel_order self order = transact self "cancelOrder" (
    addresses (order_addresses order)
    ∷ numbers (order_values order)
    ∷ number order.buy_amount.value
    ∷ [])

-- A relayer's response: its status, and its JSON where it has one.
pub record Response (Text : Type 0) : Type 0 where
  pub status_code : ℕ
  pub fields : List (String × Json Text)

module _ {Text : Type 0} (texts : Texts Text) where
  -- `get_orders` and `get_orders_by_maker`, of a response that is `ok` or not.
  unfoldable pub orders_of : Bool → List (List (String × Json Text)) → Result (List Order)
  unfolding from_json
  orders_of false items = err exception
  orders_of true items = traverse (from_json texts) items

  unfoldable pub with_fees : Order → List (String × Json Text) → Result Order
  unfolding wad_at address_at
  with_fees order data_ = do
    maker_fee ← wad_at texts "makerFee" data_
    taker_fee ← wad_at texts "takerFee" data_
    fee_recipient ← address_at texts "feeRecipient" data_
    ok (record order {
      maker_fee = maker_fee;
      taker_fee = taker_fee;
      fee_recipient = fee_recipient;
    })

  -- The relayer is asked about the order without its fees.
  unfoldable pub calculate_fees :
      (List (String × Json Text) → Result (Response Text)) → Order → Result Order
  unfolding with_fees to_json_without_fees
  calculate_fees post order = post (to_json_without_fees texts order) >>= λ response.
      if response.status_code == 200 then with_fees order response.fields else err exception

  unfoldable pub submit_order :
      (List (String × Json Text) → Result (Response Text)) → Order → Result Bool
  unfolding to_json
  submit_order post order =
      map_result (λ response. (response.status_code == 200) || (response.status_code == 201))
        (post (to_json texts order))
