-- ===== src/Transact/Rounds.antt =====
-- `pyflex/__init__.py`: single rounds of the loop that end it.
use pyflex.Base.{ℕ, ◌≤◌, Bool, true, false, ◌||◌, Option, none, some, List}
use pyflex.Base.{◌≡◌, ap, ◌∙◌, if◌then◌else◌, le→ltb}
use pyflex.Base.Results.{Result, Error, ok, err}
use pyflex.Gas.{GasPrice, get_gas_price}
use pyflex.Transact.Price.{is_due}
use pyflex.Transact.Answers.{IsSome}
use pyflex.Transact.Endings.{IsDecided, is_mined-IsDecided}
use pyflex.Transact.Loop.{
  Config, LoopState, Outcome, returned, raised, Round, meanwhile, price_of, send_if, send_at,
  round_if, seconds_elapsed, was_sent, unmined_round, is_mined, own_round, round, is_empty,
  search_receipt, searched, Attempt,
}

search-replaced :
    (attempt : ℕ → Attempt) (replaced : Bool) (hashes : List ℕ)
    → replaced ≡ true
    → search_receipt 10 1 attempt replaced hashes ≡ ok none
unfolding search_receipt
search-replaced attempt replaced hashes e = ap (λ b. search_receipt 10 1 attempt b hashes) e

round_if-replaced :
    (x : Result Bool) (c : Config) (r : Round) (s : LoopState)
    → IsDecided x
    → s.tx.replaced ≡ true
    → round_if x c r s ≡ (returned none, s)
unfolding round_if unmined_round
round_if-replaced (err e) c r s d h = absurd d
round_if-replaced (ok true) c r s d h =
    ap (λ x. (searched x, s)) (search-replaced r.attempt s.tx.replaced s.tx.tx_hashes h)
round_if-replaced (ok false) c r s d h =
    let x = price_of s.tx.gas_price (seconds_elapsed r.now s.tx.initial_time) in
    let sent = send_at x c r s in
    let ended : Outcome × LoopState = (returned none, s) in ap (λ b. if b then ended else sent) h

-- In a round in which the node tells the account's transaction count, the call of a transaction
-- that another one has replaced returns nothing, and leaves everything as other tasks have left it:
-- it sends nothing.
round_replaced :
    (c : Config) (r : Round) (s : LoopState)
    → s.tx.replaced ≡ true
    → IsSome r.latest_count
    → round c r s ≡ (returned none, meanwhile r s)
unfolding round own_round meanwhile
round_replaced c r s e h =
    let t = meanwhile r s in
    round_if-replaced (is_mined t.tx.nonce r.latest_count) c r t
      (is_mined-IsDecided t.tx.nonce r.latest_count h) (ap (λ b. b || r.replaced_meanwhile) e)

send_at-type_error :
    (c : Config) (r : Round) (s : LoopState) (price : ℕ)
    → is_empty s.tx.tx_hashes ≡ false
    → s.tx.gas_price_last ≡ none
    → send_at (ok (some price)) c r s ≡ (raised Error.type_error, s)
unfolding send_at was_sent is_due send_if
send_at-type_error c r s price h l =
    ap
      (λ b.
        send_if
          (is_due ((if b then false else true) || r.replaced_tx_sent) (some price)
            s.tx.gas_price_last)
          c r (some price) s)
      h
    ∙ ap (λ last. send_if (is_due true (some price) last) c r (some price) s) l

unmined_round-price :
    (c : Config) (r : Round) (s : LoopState) (strategy : GasPrice) (x : Result (Option ℕ))
    → s.tx.replaced ≡ false
    → s.tx.gas_price ≡ some strategy
    → get_gas_price strategy (seconds_elapsed r.now s.tx.initial_time) ≡ x
    → unmined_round c r s ≡ send_at x c r s
unfolding unmined_round price_of
unmined_round-price c r s strategy x e g p =
    let elapsed = seconds_elapsed r.now s.tx.initial_time in
    let sent = send_at (price_of s.tx.gas_price elapsed) c r s in
    let ended : Outcome × LoopState = (returned none, s) in
    ap (λ b. if b then ended else sent) e
    ∙ ap (λ o. send_at (price_of o elapsed) c r s) g
    ∙ ap (λ y. send_at y c r s) p

unmined :
    (m latest_count : Option ℕ) (n count : ℕ)
    → m ≡ some n
    → latest_count ≡ some count
    → count ≤ n
    → is_mined m latest_count ≡ ok false
unfolding is_mined
unmined m latest_count n count e f b =
    ap (λ o. is_mined o latest_count) e ∙ ap (λ o. is_mined (some n) o) f ∙ ap ok (le→ltb n count b)

-- A transaction that has been sent with the price that the node chooses, that is not replaced or in
-- a block, and whose strategy gives a price now: the round raises a `TypeError`, for it multiplies
-- `None` by 1.125.
round_without_price :
    (c : Config) (r : Round) (s : LoopState) (strategy : GasPrice) (price n count : ℕ)
    → (meanwhile r s).tx.replaced ≡ false
    → (meanwhile r s).tx.gas_price ≡ some strategy
    → get_gas_price strategy (seconds_elapsed r.now s.tx.initial_time) ≡ ok (some price)
    → is_empty s.tx.tx_hashes ≡ false
    → s.tx.gas_price_last ≡ none
    → s.tx.nonce ≡ some n
    → r.latest_count ≡ some count
    → count ≤ n
    → round c r s ≡ (raised Error.type_error, meanwhile r s)
unfolding round own_round round_if meanwhile
round_without_price c r s strategy price n count e g p h l m k b =
    let t = meanwhile r s in
    ap (λ x. round_if x c r t) (unmined t.tx.nonce r.latest_count n count m k b)
    ∙ unmined_round-price c r t strategy (ok (some price)) e g p
    ∙ send_at-type_error c r t price h l
