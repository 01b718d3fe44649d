-- ===== src/Transact/Tests.antt =====
-- `pyflex/__init__.py`: the transactions that the theorems are tried on.
use pyflex.Base.{
  ℕ, inl, Bool, true, false, subst, Option, none, some, List, [], ◌∷◌, All, Any, ◌≡◌, ◌≢◌, refl,
  if◌then◌else◌, ◌==◌, arith,
}
use pyflex.Base.Results.{Result, Error, ok, err}
use pyflex.Gas.{GasPrice, fixed, get_gas_price}
use pyflex.Transact.State.{in_progress, Tx, new_tx, Receipt, serial}
use pyflex.Transact.Nonce.{NonceAnswers, lookup}
use pyflex.Transact.Price.{method}
use pyflex.Transact.Receipt.{RawReceipt, Log}
use pyflex.Transact.Loop.{
  Attempt, Round, Config, LoopState, running, returned, raised, rounds, round, meanwhile,
  seconds_elapsed,
}
use pyflex.Transact.Start.{Kwargs, Begin, transact_async, account_of, wait_for}
use pyflex.Transact.Recovered.{Item, new_recovered, CancelRound, cancel_async}
use pyflex.Transact.Calls.{IsConsistent, rounds-IsConsistent}
use pyflex.Transact.Escalation.{IsEscalating, rounds-IsEscalating}
use pyflex.Transact.Receipts.{IsAnswered, rounds_receipt}
use pyflex.Transact.Endings.{rounds_raise_nothing}
use pyflex.Transact.Answers.{IsAnswering, IsOk}
use pyflex.Transact.Serial.{Entry, IncreasesFrom, assigned, assigned-IncreasesFrom}
use pyflex.Transact.Ordering.{IsOrdered, transact_async-IsOrdered}
use pyflex.Transact.Replacing.{WithNonce, transact_async_replaces}
use pyflex.Transact.Refusing.{IsRefused, transact_async_refuses}
use pyflex.Transact.Pending.{EscalatesFrom, cancel_async-EscalatesFrom}

abbrev config : Config
config = record { from_account = 1; gas = 60000; calculation = serial }

abbrev strategy : GasPrice
strategy = fixed (record { gas_price = 100 })

abbrev answers : NonceAnswers
answers = record { pending_count = some 3; parity_next = none }

abbrev found : RawReceipt
found = record { transaction_hash = 77; block_number = some 9; status = some 1; logs = [] }

-- An attempt that finds the receipt of the hash 77.
abbrev attempt : Attempt
attempt = record {
  replaced_by_now = false;
  find = λ h. if h == 77 then ok (some found) else ok none;
  result_function = λ _. ok tt;
  count_again = some 6;
}

-- A round in which the account has `count` transactions in blocks, and a send gives `hash`.
abbrev quiet : Option ℕ → Option ℕ → Option ℕ → Round
quiet price count hash = record {
  replaced_meanwhile = false;
  updated_price = price;
  other_nonces = [];
  now = 0;
  latest_count = count;
  attempt = λ _. attempt;
  replaced_tx_sent = false;
  nonce_answers = answers;
  replaced_in_lock = false;
  send = hash;
}

abbrev first_tx : Tx
first_tx = record new_tx { gas_price = some strategy }

abbrev first : LoopState
first = record { tx = first_tx; nonces = (1, 5) ∷ []; sent = [] }

-- The transaction is sent, sent again for 200, and found in a block.
abbrev three : List Round
three =
    quiet none (some 3) (some 76)
    ∷ quiet (some 200) (some 3) (some 77)
    ∷ quiet none (some 6) none
    ∷ []

abbrev receipt : Receipt
receipt = record { transaction_hash = 77; successful = true }

three_returned : (rounds config three first).0 ≡ returned (some receipt)
unfolding rounds round meanwhile
three_returned = refl

rounds-IsConsistent_example : IsConsistent config (rounds config three first).1
rounds-IsConsistent_example = rounds-IsConsistent config three first tt

-- A transaction with the nonce 5 that has been sent for 100.
abbrev sent_tx : Tx
sent_tx = record first_tx { nonce = some 5; gas_price_last = some 100; tx_hashes = 77 ∷ [] }

abbrev sent_state : LoopState
sent_state = record { tx = sent_tx; nonces = (1, 6) ∷ []; sent = [] }

rounds-IsEscalating_example : IsEscalating (rounds config three first).1.sent
rounds-IsEscalating_example = rounds-IsEscalating config three first tt tt

rounds_receipt_example :
    (receipt.successful ≡ true)
    × Any
        (λ r. (i : ℕ) × IsAnswered (r.attempt i) (rounds config three first).1.tx.tx_hashes receipt)
        three
rounds_receipt_example = rounds_receipt config three first receipt three_returned

-- Every send fails, and the loop goes on.
abbrev failing : List Round
failing = quiet (some 200) (some 3) none ∷ quiet (some 300) (some 3) none ∷ []

abbrev logs_of : Result (Option RawReceipt) → List Log
logs_of (err e) = []
logs_of (ok none) = []
logs_of (ok (some r)) = r.logs

-- A receipt that is found has no logs, and none is missing by an exception.
attempt-IsAnswering : IsAnswering attempt
attempt-IsAnswering = (λ h e f. ground arith, λ h r f. logs (h == 77) r f, λ _. tt, tt)
  where
    logs :
        (b : Bool) (r : RawReceipt)
        → (if b then ok (some found) else ok none) ≡ ok (some r)
        → All (λ l. IsOk l.event) r.logs
    logs true r e = subst (λ q. All (λ l. IsOk l.event) (logs_of q)) e tt
    logs false r e = ground arith

rounds_raise_nothing_example : (rounds config failing sent_state).0 ≢ raised Error.exception
rounds_raise_nothing_example =
    rounds_raise_nothing config failing sent_state Error.exception
      (refl, (record { gas_price = 100 }, refl), tt)
      ((tt, λ _. attempt-IsAnswering), ((tt, λ _. attempt-IsAnswering), tt))

abbrev replaced_state : LoopState
replaced_state = record sent_state { tx = record sent_tx { replaced = true } }

-- A transaction that replaces one for which the node has chosen the price.
abbrev unpriced : LoopState
unpriced = record sent_state { tx = record sent_tx { gas_price_last = none } }

meanwhile_replaced : (meanwhile (quiet none (some 3) none) unpriced).tx.replaced ≡ false
unfolding meanwhile
meanwhile_replaced = refl

meanwhile_price : (meanwhile (quiet none (some 3) none) unpriced).tx.gas_price ≡ some strategy
unfolding meanwhile
meanwhile_price = refl

price_now : get_gas_price strategy (seconds_elapsed 0 none) ≡ ok (some 100)
unfolding get_gas_price
price_now = refl

-- A new transaction of the account, whose send fails or not.
abbrev entry : ℕ → ℕ → Option ℕ → Entry
entry account count hash = record {
  config = record config { from_account = account };
  round = record (quiet none (some 0) hash) {
    nonce_answers = record { pending_count = some count; parity_next = none };
  };
  price = some 100;
  tx = first_tx;
}

-- Two transactions of the account 1, and one of another account in between. The first send fails.
abbrev senders : List Entry
senders = entry 1 3 none ∷ entry 2 8 (some 90) ∷ entry 1 4 (some 91) ∷ []

known_nonce : lookup 1 ((1, 5) ∷ []) ≡ some 5
unfolding lookup
known_nonce = refl

senders_nonces : assigned senders ((1, 5) ∷ (2, 6) ∷ []) ≡ (1, 5) ∷ (2, 8) ∷ (1, 6) ∷ []
unfolding assigned
senders_nonces = refl

assigned-IncreasesFrom_example : IncreasesFrom 1 5 (assigned senders ((1, 5) ∷ []))
assigned-IncreasesFrom_example =
    assigned-IncreasesFrom senders 1 5 ((1, 5) ∷ []) (tt, (tt, (tt, tt))) known_nonce

abbrev kwargs : Kwargs
kwargs = record {
  unknown = false;
  from_address = none;
  gas = none;
  gas_buffer = some 20000;
  gas_price = some strategy;
}

abbrev begin : Begin
begin = record {
  target = method;
  default_account = 1;
  calculation = serial;
  gas_estimate_for_bad_txs = none;
  now = 0;
  pending_count = some 3;
  estimate = some 40000;
  call_ok = true;
  later = 9;
}

begin_returned : (transact_async kwargs begin none three new_tx []).0 ≡ returned (some receipt)
unfolding transact_async
begin_returned = refl

transact_async-IsOrdered_example :
    All (IsOrdered kwargs begin) (transact_async kwargs begin none three new_tx []).1.sent
transact_async-IsOrdered_example = transact_async-IsOrdered kwargs begin none three new_tx []

has_ended : (transact_async kwargs begin none three new_tx []).0 ≢ running
has_ended = λ e. ground (arith, begin_returned)

abbrev waiting : List Tx
waiting = record sent_tx { nonce = none; status = in_progress } ∷ sent_tx ∷ []

waiting_ends : wait_for waiting ≡ some sent_tx
unfolding wait_for
waiting_ends = refl

transact_async_replaces_example :
    All (WithNonce 5) (transact_async kwargs begin (some waiting) three new_tx []).1.sent
transact_async_replaces_example =
    transact_async_replaces kwargs begin waiting sent_tx 5 three new_tx [] refl waiting_ends refl

abbrev bad : Begin
bad = record begin { estimate = none }

bad_unsent : (transact_async kwargs bad none three new_tx []).1.nonces ≡ (1, 3) ∷ []
unfolding transact_async
bad_unsent = refl

transact_async_refuses_example :
    IsRefused (account_of kwargs bad) (some 3) [] (transact_async kwargs bad none three new_tx [])
transact_async_refuses_example =
    transact_async_refuses kwargs bad none three new_tx [] (inl refl) refl refl

abbrev pending : Item
pending = record { from_address = 1; block_number = none; nonce = 4; hash = 70; gas_price = 90 }

abbrev cancelling : List CancelRound
cancelling =
    record { now = 0; send = some 71; find = λ _. ok none }
    ∷ record {
      now = 1000000;
      send = none;
      find = λ h. if h == 71 then ok (some found) else ok none;
    }
    ∷ []

cancel_async_prices :
    (cancel_async strategy 0 cancelling (new_recovered 1 4 70 80)).1.prices ≡ 100 ∷ []
unfolding cancel_async new_recovered
cancel_async_prices = refl

cancel_async-EscalatesFrom_example :
    EscalatesFrom 80
      (cancel_async strategy 0 cancelling
        (record { tx = new_tx; address = 1; current_gas = 80 })).1.prices
cancel_async-EscalatesFrom_example =
    cancel_async-EscalatesFrom strategy 0 cancelling
      (record { tx = new_tx; address = 1; current_gas = 80 })
