-- ===== src/Transact/Start.antt =====
-- `pyflex/__init__.py`: the prologue of `Transact.transact_async`, the wrapper `_track_status`, and
-- the whole call.
use pyflex.Base.{ℕ, zero, suc, Bool, true, false, Option, none, some, List, [], ◌∷◌, if◌then◌else◌}
use pyflex.Base.Results.{Result, Error, ok, err, value_error}
use pyflex.Gas.{GasPrice, default_price}
use pyflex.Transact.State.{Status, new, in_progress, finished, Tx, NonceCalculation, Nonces}
use pyflex.Transact.Nonce.{lookup, insert}
use pyflex.Transact.Price.{Target, Estimate, units, estimated_gas, gas_limit}
use pyflex.Transact.Loop.{
  Config, LoopState, Outcome, running, returned, raised, Round, rounds, continue_with,
}

-- The keyword arguments but `replace`. `unknown` says that there is one of another name.
pub record Kwargs : Type 0 where
  pub unknown : Bool
  pub from_address : Option ℕ
  pub gas : Option ℕ
  pub gas_buffer : Option ℕ
  pub gas_price : Option GasPrice

-- What the prologue meets: the call's target, the class's and the node's settings, and the answers
-- of the node and the clock.
pub record Begin : Type 0 where
  pub target : Target
  pub default_account : ℕ
  pub calculation : NonceCalculation
  pub gas_estimate_for_bad_txs : Option ℕ
  pub now : ℕ
  pub pending_count : Option ℕ
  pub estimate : Option ℕ
  pub call_ok : Bool
  pub later : ℕ

-- The transaction to be replaced, as it is found by each look of the waiting loop.
abbrev pub Looks : Type 0
Looks = Option (List Tx)

-- The prologue ends the call, or hands over to the loop. The transaction that is replaced comes
-- back as the prologue leaves it.
pub record Begun : Type 0 where
  pub outcome : Outcome
  pub config : Config
  pub state : LoopState
  pub replaced_tx : Option Tx

-- `next_nonce` has an entry for the account from now on.
unfoldable pub first_nonce : ℕ → Option ℕ → Nonces → Result Nonces
unfolding lookup insert
first_nonce account pending nonces = elim (lookup account nonces) [
  | some _ ↦ ok nonces
  | none ↦ elim pending [ none ↦ err Error.exception | some n ↦ ok (insert account n nonces) ]
]

-- The estimate, or the one that is configured for transactions that fail; `none` gives up.
unfoldable pub estimate_or_default : Result Estimate → Option ℕ → Option Estimate
estimate_or_default (ok estimate) for_bad_txs = some estimate
estimate_or_default (err e) none = none
estimate_or_default (err e) (some zero) = none
estimate_or_default (err e) (some (suc n)) = some (units (suc n))

-- `while replaced_tx.nonce is None and replaced_tx.status != TransactStatus.FINISHED`
abbrev pub must_wait : Option ℕ → Status → Bool
must_wait (some n) status = false
must_wait none new = true
must_wait none in_progress = true
must_wait none finished = false

unfoldable pub wait_for : List Tx → Option Tx
wait_for [] = none
wait_for (look ∷ looks) =
    let rest = wait_for looks in if must_wait look.nonce look.status then rest else some look

-- The time that counts, unless it is missing or 0.
abbrev pub time_or : Option ℕ → ℕ → ℕ
time_or none later = later
time_or (some zero) later = later
time_or (some (suc t)) later = suc t

abbrev pub strategy_or : Option GasPrice → GasPrice
strategy_or none = default_price
strategy_or (some strategy) = strategy

-- `[replaced_tx.tx_hashes[-1]]`, if there is one.
unfoldable pub last_hash : List ℕ → List ℕ → List ℕ
last_hash [] own = own
last_hash (h ∷ []) own = h ∷ []
last_hash (h ∷ i ∷ hashes) own = last_hash (i ∷ hashes) own

-- What a transaction takes over from the one that it replaces.
unfoldable pub take_over : Option GasPrice → ℕ → Tx → Tx → Tx
unfolding last_hash
take_over given later old tx = record tx {
  nonce = old.nonce;
  initial_time = some (time_or old.initial_time later);
  gas_price = some (strategy_or (elim given [ some g ↦ some g | none ↦ old.gas_price ]));
  gas_price_last = old.gas_price_last;
  tx_hashes = last_hash old.tx_hashes tx.tx_hashes;
}

abbrev pub go_on : Config → LoopState → Option Tx → Begun
go_on c s old = record { outcome = running; config = c; state = s; replaced_tx = old }

abbrev pub with_tx : LoopState → Tx → LoopState
with_tx s tx = record s { tx = tx }

-- The transaction to be replaced, once the waiting loop has ended.
unfoldable pub replace_by : Option Tx → Kwargs → Begin → Config → LoopState → Begun
unfolding take_over
replace_by none k b c s = go_on c s none
replace_by (some old) k b c s =
    go_on c (with_tx s (take_over k.gas_price b.later old s.tx))
      (some (record old { replaced = true }))

unfoldable pub replace_with : Looks → Kwargs → Begin → Config → LoopState → Begun
unfolding wait_for replace_by
replace_with none k b c s = go_on c s none
replace_with (some looks) k b c s = replace_by (wait_for looks) k b c s

-- Whether the waiting loop has come to an end.
unfoldable pub may_start : Looks → Bool
unfolding wait_for
may_start none = true
may_start (some looks) = elim (wait_for looks) [ none ↦ false | some _ ↦ true ]

unfoldable pub account_of : Kwargs → Begin → ℕ
account_of k b = elim k.from_address [ none ↦ b.default_account | some a ↦ a ]

abbrev pub stop : Outcome → Config → LoopState → Begun
stop o c s = record { outcome = o; config = c; state = s; replaced_tx = none }

unfoldable pub begin_with : Result ℕ → Kwargs → Begin → Looks → Config → LoopState → Begun
unfolding replace_with
begin_with (err e) k b looks c s = stop (raised e) c s
begin_with (ok gas) k b looks c s =
    replace_with looks k b (record c { gas = gas })
      (with_tx s (record (s.tx) { gas_price = some (strategy_or k.gas_price) }))

unfoldable pub estimate_with : Option Estimate → Kwargs → Begin → Looks → Config → LoopState → Begun
unfolding gas_limit begin_with
estimate_with none k b looks c s = stop (returned none) c s
estimate_with (some estimate) k b looks c s =
    begin_with (gas_limit estimate k.gas k.gas_buffer) k b looks c s

unfoldable pub estimate_of : Begin → Option Estimate
unfolding estimated_gas estimate_or_default
estimate_of b =
    estimate_or_default (estimated_gas b.target b.estimate b.call_ok) b.gas_estimate_for_bad_txs

-- From the entry in `next_nonce` to the replaced transaction.
unfoldable pub prepare : Result Nonces → Kwargs → Begin → Looks → Config → LoopState → Begun
unfolding estimate_of estimate_with
prepare (err e) k b looks c s = stop (raised e) c s
prepare (ok known) k b looks c s =
    estimate_with (estimate_of b) k b looks c (record s { nonces = known })

abbrev pub first_config : Kwargs → Begin → Config
unfolding account_of
first_config k b = record { from_account = account_of k b; gas = 0; calculation = b.calculation }

abbrev pub first_state : Begin → Tx → Nonces → LoopState
first_state b tx nonces = record {
  tx = record tx { initial_time = some b.now };
  nonces = nonces;
  sent = [];
}

unfoldable pub prologue : Kwargs → Begin → Looks → Tx → Nonces → Begun
unfolding first_config first_nonce prepare
prologue k b looks tx nonces =
    if k.unknown
    then stop (raised value_error) (first_config k b) (first_state b tx nonces)
    else prepare (first_nonce (account_of k b) b.pending_count nonces) k b looks (first_config k b)
        (first_state b tx nonces)

-- The loop, if the prologue lets it begin.
unfoldable pub run : Begun → Looks → List Round → Outcome × LoopState × Option Tx
unfolding rounds may_start
run begun looks rs =
    let (outcome, s) =
      continue_with (begun.outcome, begun.state)
        (λ s. if may_start looks then rounds begun.config rs s else (running, s)) in
    (outcome, s, begun.replaced_tx)

unfoldable pub body :
    Kwargs → Begin → Looks → List Round → Tx → Nonces → Outcome × LoopState × Option Tx
unfolding prologue run
body k b looks rs tx nonces = run (prologue k b looks tx nonces) looks rs

abbrev pub with_status : Status → LoopState → LoopState
with_status status s = record s { tx = record (s.tx) { status = status } }

-- `finally`: a call that has ended has the status `FINISHED`.
abbrev pub close : Outcome × LoopState × Option Tx → Outcome × LoopState × Option Tx
close (running, s, old) = (running, s, old)
close (returned receipt, s, old) = (returned receipt, with_status finished s, old)
close (raised e, s, old) = (raised e, with_status finished s, old)

abbrev pub is_new : Status → Bool
is_new new = true
is_new in_progress = false
is_new finished = false

-- `Transact.transact_async`, wrapped by `_track_status`.
unfoldable pub transact_async :
    Kwargs → Begin → Looks → List Round → Tx → Nonces → Outcome × LoopState × Option Tx
unfolding body
transact_async k b looks rs tx nonces =
    let call = close (body k b looks rs (record tx { status = in_progress }) nonces) in
    if is_new tx.status
    then call
    else (raised Error.exception, record { tx = tx; nonces = nonces; sent = [] }, none)
