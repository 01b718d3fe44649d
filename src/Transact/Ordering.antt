-- ===== src/Transact/Ordering.antt =====
-- `pyflex/__init__.py`: the account and the gas limit of the calls that `Transact.transact_async`
-- makes, by its arguments.
use pyflex.Base.{ℕ, zero, suc, ◌+◌, Bool, true, false, Option, none, some, All, All-imp}
use pyflex.Base.{◌≡◌, ◌⊎◌, inl, inr, refl, sym, subst, ap, ◌∙◌, arith, List}
use pyflex.Base.Results.{Error, ok, err}
use pyflex.Transact.State.{Tx, Nonces, Sent}
use pyflex.Transact.Price.{
  Estimate, units, call_result, Target, raw_data, method, plain_transfer, estimated_gas, gas_limit,
  add_to,
}
use pyflex.Transact.Loop.{Round}
use pyflex.Transact.Start.{
  Kwargs, Begin, Looks, estimate_or_default, estimate_of, account_of, transact_async,
}
use pyflex.Transact.Calling.{IsComputed, transact_async-IsComputed}

-- The account of the argument `from_address`, or else the default one.
abbrev pub IsAccount : Option ℕ → ℕ → ℕ → Type 0
IsAccount from_address default_account account =
    (from_address ≡ some account) ⊎ ((from_address ≡ none) × (default_account ≡ account))

-- The node's estimate, 21000 for a plain transfer, or the estimate for transactions that fail.
abbrev pub IsEstimate : Target → Option ℕ → Option ℕ → ℕ → Type 0
IsEstimate target estimate for_bad_txs n =
    (estimate ≡ some n) ⊎ (((target ≡ plain_transfer) × (n ≡ 21000)) ⊎ (for_bad_txs ≡ some n))

-- The gas limit of the argument `gas`, or else an estimate and the argument `gas_buffer`, or else an
-- estimate and 100000.
abbrev pub IsGas : (ℕ → Type 0) → Option ℕ → Option ℕ → ℕ → Type 0
IsGas IsEstimated limit buffer gas =
    ((limit ≡ some gas) × (buffer ≡ none))
    ⊎ ((limit ≡ none)
        × ((n : ℕ) × IsEstimated n
            × (((m : ℕ) × (buffer ≡ some m) × (gas ≡ n + m))
                ⊎ ((buffer ≡ none) × (gas ≡ n + 100000)))))

-- A call that the arguments explain.
abbrev pub IsOrdered : Kwargs → Begin → Sent → Type 0
IsOrdered k b call =
    IsAccount k.from_address b.default_account call.from_account
    × IsGas (IsEstimate b.target b.estimate b.gas_estimate_for_bad_txs) k.gas k.gas_buffer call.gas

sender-IsAccount :
    (from_address : Option ℕ) (default_account : ℕ)
    → IsAccount from_address default_account
        (elim from_address [ none ↦ default_account | some a ↦ a ])
sender-IsAccount none default_account = inr (refl, refl)
sender-IsAccount (some a) default_account = inl refl

default-IsEstimate :
    (target : Target) (estimate for_bad_txs : Option ℕ) (e : Error) (n : ℕ)
    → estimate_or_default (err e) for_bad_txs ≡ some (units n)
    → IsEstimate target estimate for_bad_txs n
unfolding estimate_or_default
default-IsEstimate target estimate none e n h = ground arith
default-IsEstimate target estimate (some zero) e n h = ground arith
default-IsEstimate target estimate (some (suc m)) e n h = inr (inr (ground arith))

node-IsEstimate :
    (target : Target) (estimate : Option ℕ) (call_ok : Bool) (for_bad_txs : Option ℕ) (n : ℕ)
    → estimate_or_default (estimated_gas target estimate call_ok) for_bad_txs ≡ some (units n)
    → IsEstimate target estimate for_bad_txs n
unfolding estimate_or_default estimated_gas
node-IsEstimate raw_data (some m) call_ok for_bad_txs n h = inl (ground arith)
node-IsEstimate raw_data none true for_bad_txs n h = ground arith
node-IsEstimate raw_data none false for_bad_txs n h =
    default-IsEstimate raw_data none for_bad_txs Error.exception n h
node-IsEstimate method (some m) call_ok for_bad_txs n h = inl (ground arith)
node-IsEstimate method none call_ok for_bad_txs n h =
    default-IsEstimate method none for_bad_txs Error.exception n h
node-IsEstimate plain_transfer estimate call_ok for_bad_txs n h = inr (inl (refl, ground arith))

-- What an estimate stands for.
gas_limit-IsGas :
    (P : ℕ → Type 0) (e : Estimate) (limit buffer : Option ℕ) (gas : ℕ)
    → ((n : ℕ) → e ≡ units n → P n)
    → gas_limit e limit buffer ≡ ok gas
    → IsGas P limit buffer gas
unfolding gas_limit add_to
gas_limit-IsGas P e (some g) (some m) gas f h = ground arith
gas_limit-IsGas P e (some g) none gas f h = inl (ground arith, refl)
gas_limit-IsGas P (units n) none (some m) gas f h =
    inr (refl, (n, f n refl, inl (m, refl, ground arith)))
gas_limit-IsGas P (units n) none none gas f h = inr (refl, (n, f n refl, inr (refl, ground arith)))
gas_limit-IsGas P call_result none (some m) gas f h = ground arith
gas_limit-IsGas P call_result none none gas f h = ground arith

computed-IsOrdered :
    (k : Kwargs) (b : Begin) (call : Sent) → IsComputed k b call → IsOrdered k b call
unfolding estimate_of account_of
computed-IsOrdered k b call (account, (e, estimated, limited)) = (
  subst (IsAccount k.from_address b.default_account) (sym account)
      (sender-IsAccount k.from_address b.default_account),
  gas_limit-IsGas _ e k.gas k.gas_buffer call.gas
      (λ n is_n.
        node-IsEstimate b.target b.estimate b.call_ok b.gas_estimate_for_bad_txs n
          (estimated ∙ ap some is_n))
      limited,
)

-- Whatever the arguments, the node and other tasks do: every call that `transact_async` makes of
-- the node is from the account of `from_address`, or else the default one; and its gas limit is the
-- argument `gas`, or else an estimate and the argument `gas_buffer`, or else an estimate and 100000,
-- where the estimate is the node's, 21000 for a plain transfer, or the one that is configured for
-- transactions that fail.
pub transact_async-IsOrdered :
    (k : Kwargs) (b : Begin) (looks : Looks) (rs : List Round) (tx : Tx) (nonces : Nonces)
    → All (IsOrdered k b) (transact_async k b looks rs tx nonces).1.sent
transact_async-IsOrdered k b looks rs tx nonces =
    All-imp (computed-IsOrdered k b) (transact_async k b looks rs tx nonces).1.sent
      (transact_async-IsComputed k b looks rs tx nonces)
