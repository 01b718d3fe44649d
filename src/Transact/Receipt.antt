-- ===== src/Transact/Receipt.antt =====
-- `pyflex/__init__.py`: `Receipt.__init__` and `Transact._get_receipt`.
use pyflex.Base.{ℕ, Bool, true, false, Option, none, some, List, [], ◌∷◌, ◌++◌, ◌==◌, if◌then◌else◌}
use pyflex.Base.Results.{Result, Error, ok, err, value_error, key_error, ◌>>=◌, map_result}
use pyflex.Transact.State.{Receipt}

-- What `get_event_data` of web3 decodes from a log.
pub record EventArgs : Type 0 where
  pub src : ℕ
  pub dst : ℕ
  pub guy : ℕ
  pub amount : ℕ

-- A log of a receipt: its topics, and what its decoding gives or raises.
pub record Log : Type 0 where
  pub topics : List ℕ
  pub address : ℕ
  pub event : Result EventArgs

-- `Transfer`
pub record Transfer : Type 0 where
  pub token_address : ℕ
  pub from_address : ℕ
  pub to_address : ℕ
  pub value : ℕ

-- The hashes of the three events.
abbrev pub transfer_topic : ℕ
transfer_topic = 0xddf252ad1be2c89b69c2b068fc378daa952ba7f163c4a11628f55a4df523b3ef

abbrev pub mint_topic : ℕ
mint_topic = 0x0f6798a560793a54c3bcfe86a93cde1e73087d944c0ea20544137d4121396885

abbrev pub burn_topic : ℕ
burn_topic = 0xcc16f5dbb4873280815c1ee09dbd06736cffcc184412cf7a71a0fdb75d397ca5

-- The body of one of the three tests in the loop over the logs.
unfoldable pub transfer_if : Bool → Log → (EventArgs → ℕ) → (EventArgs → ℕ) → Result (List Transfer)
transfer_if false l src dst = ok []
transfer_if true l src dst =
    map_result
      (λ e.
        record {
          token_address = l.address;
          from_address = src e;
          to_address = dst e;
          value = e.amount;
        }
        ∷ [])
      l.event

-- The three tests, in their order.
unfoldable pub transfers_of_topic : ℕ → Log → Result (List Transfer)
unfolding transfer_if
transfers_of_topic topic l = do
  sent ← transfer_if (topic == transfer_topic) l (λ e. e.src) (λ e. e.dst)
  minted ← transfer_if (topic == mint_topic) l (λ _. 0) (λ e. e.guy)
  burned ← transfer_if (topic == burn_topic) l (λ e. e.guy) (λ _. 0)
  ok (sent ++ (minted ++ burned))

unfoldable pub transfers_of_topics : List ℕ → Log → Result (List Transfer)
unfolding transfers_of_topic
transfers_of_topics [] l = ok []
transfers_of_topics (topic ∷ topics) l = transfers_of_topic topic l

unfoldable pub transfers : List Log → Result (List Transfer)
unfolding transfers_of_topics
transfers [] = ok []
transfers (l ∷ logs) = do
  first ← transfers_of_topics l.topics l
  rest ← transfers logs
  ok (first ++ rest)

-- What the node answers to `getTransactionReceipt`. `status` is `int(str(…), 16)`, where `none`
-- stands for a text that is no number.
pub record RawReceipt : Type 0 where
  pub transaction_hash : ℕ
  pub block_number : Option ℕ
  pub status : Option ℕ
  pub logs : List Log

-- Whether the status is 1, if it is 0 or 1.
unfoldable pub status_of : Option ℕ → Result Bool
status_of none = err value_error
status_of (some status) =
    if status == 1 then ok true else if status == 0 then ok false else err value_error

-- `Receipt.__init__`: the status first, then the logs. The transfers are left out of the result.
unfoldable pub new_receipt : RawReceipt → Result Receipt
unfolding status_of transfers
new_receipt r = do
  successful ← status_of r.status
  _ ← transfers r.logs
  ok (record { transaction_hash = r.transaction_hash; successful = successful })

-- The exceptions that `_get_receipt` catches. `TransactionNotFound`, of web3, is told from no answer
-- by nothing that follows: both are `ok none`.
abbrev pub is_caught : Error → Bool
is_caught value_error = true
is_caught key_error = true
is_caught _ = false

unfoldable pub catch_missing : Result (Option Receipt) → Result (Option Receipt)
catch_missing (ok receipt) = ok receipt
catch_missing (err e) = if is_caught e then ok none else err e

-- The body of the `try`, with what `result_function` raises.
unfoldable pub read_receipt :
    (Receipt → Result (Unit {0})) → Option RawReceipt → Result (Option Receipt)
unfolding new_receipt
read_receipt result_function none = ok none
read_receipt result_function (some r) = elim r.block_number [
  | none ↦ ok none
  | some _ ↦ new_receipt r >>= λ receipt. result_function receipt >>= λ _. ok (some receipt)
]

-- `Transact._get_receipt`: `None`, a receipt, or an exception that is not caught.
unfoldable pub get_receipt :
    (Receipt → Result (Unit {0})) → Result (Option RawReceipt) → Result (Option Receipt)
unfolding read_receipt catch_missing
get_receipt result_function answer = catch_missing (answer >>= read_receipt result_function)
