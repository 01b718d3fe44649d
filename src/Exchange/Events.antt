-- ===== src/Exchange/Events.antt =====
-- `LogCancel` and `LogFill` of `pyflex/zrx.py`. Hexadecimal texts are given by their bytes.
use Prim.Native.String.{String}
use text.Mathlib.Text.{◌==◌ as same_text}
use pyflex.Base.{ℕ, if◌then◌else◌, List, [], ◌∷◌, Option, none, some}
use pyflex.Base.Results.{Result, ok, ◌>>=◌, map_result}
use pyflex.Numeric.Classes.{wad}
use pyflex.Numeric.Amount.{Amount, of_int}
use pyflex.Base.Int.{ℤ}
use pyflex.Chain.{past_events, Args, get, int_of, address_of, Log, Codec}
use pyflex.Geb.Engine.{bytes_of}

-- `Wad(int(args[name]))`
unfoldable pub wad_arg : String → Args → Result (Amount wad)
unfolding get int_of
wad_arg name args = get name args >>= int_of >>= of_int

pub record LogCancel : Type 0 where
  pub maker : ℕ
  pub fee_recipient : ℕ
  pub pay_token : ℕ
  pub buy_token : ℕ
  pub cancelled_pay_amount : Amount wad
  pub cancelled_buy_amount : Amount wad
  pub tokens : List ℕ
  pub order_hash : List ℕ
  pub raw : Log

unfoldable pub log_cancel : Log → Result LogCancel
unfolding get address_of bytes_of wad_arg
log_cancel log = do
  maker ← get "maker" log.args >>= address_of
  fee_recipient ← get "feeRecipient" log.args >>= address_of
  pay_token ← get "makerToken" log.args >>= address_of
  buy_token ← get "takerToken" log.args >>= address_of
  cancelled_pay_amount ← wad_arg "cancelledMakerTokenAmount" log.args
  cancelled_buy_amount ← wad_arg "cancelledTakerTokenAmount" log.args
  tokens ← get "tokens" log.args >>= bytes_of
  order_hash ← get "orderHash" log.args >>= bytes_of
  ok (record {
    maker = maker;
    fee_recipient = fee_recipient;
    pay_token = pay_token;
    buy_token = buy_token;
    cancelled_pay_amount = cancelled_pay_amount;
    cancelled_buy_amount = cancelled_buy_amount;
    tokens = tokens;
    order_hash = order_hash;
    raw = log;
  })

pub record LogFill : Type 0 where
  pub maker : ℕ
  pub taker : ℕ
  pub fee_recipient : ℕ
  pub pay_token : ℕ
  pub buy_token : ℕ
  pub filled_pay_amount : Amount wad
  pub filled_buy_amount : Amount wad
  pub paid_maker_fee : Amount wad
  pub paid_taker_fee : Amount wad
  pub tokens : List ℕ
  pub order_hash : List ℕ
  pub raw : Log

unfoldable pub log_fill : Log → Result LogFill
unfolding get address_of bytes_of wad_arg
log_fill log = do
  maker ← get "maker" log.args >>= address_of
  taker ← get "taker" log.args >>= address_of
  fee_recipient ← get "feeRecipient" log.args >>= address_of
  pay_token ← get "makerToken" log.args >>= address_of
  buy_token ← get "takerToken" log.args >>= address_of
  filled_pay_amount ← wad_arg "filledMakerTokenAmount" log.args
  filled_buy_amount ← wad_arg "filledTakerTokenAmount" log.args
  paid_maker_fee ← wad_arg "paidMakerFee" log.args
  paid_taker_fee ← wad_arg "paidTakerFee" log.args
  tokens ← get "tokens" log.args >>= bytes_of
  order_hash ← get "orderHash" log.args >>= bytes_of
  ok (record {
    maker = maker;
    taker = taker;
    fee_recipient = fee_recipient;
    pay_token = pay_token;
    buy_token = buy_token;
    filled_pay_amount = filled_pay_amount;
    filled_buy_amount = filled_buy_amount;
    paid_maker_fee = paid_maker_fee;
    paid_taker_fee = paid_taker_fee;
    tokens = tokens;
    order_hash = order_hash;
    raw = log;
  })

unfoldable fill_from : Result Log → List String → Result (Option LogFill)
unfolding log_fill
fill_from decoded [] = ok none
fill_from decoded (topic ∷ topics) =
    if same_text topic "0x0bcc4c97732e47d9946f229edb95f5b6323f601300e4690de719993f3c371129"
    then map_result some (decoded >>= log_fill)
    else ok none

-- `LogFill.from_event`
unfoldable pub from_event : {Raw : Type 0} → Codec Raw → Raw → Result (Option LogFill)
unfolding fill_from
from_event codec event = fill_from (codec.get_event_data "LogFill" event) (codec.topics event)

unfoldable pub past_fill : (ℕ → ℕ → Result (List Log)) → ℕ → ℤ → Result (List LogFill)
unfolding log_fill past_events
past_fill = past_events log_fill

unfoldable pub past_cancel : (ℕ → ℕ → Result (List Log)) → ℕ → ℤ → Result (List LogCancel)
unfolding log_cancel past_events
past_cancel = past_events log_cancel
