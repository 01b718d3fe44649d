-- ===== src/Lib.antt =====
-- The verification of pyflex, the Python API of the GEB protocol: its fixed-point numbers, its gas
-- price strategies, the life of a transaction and of a keeper, and the clients of its contracts, of
-- tokens and of the first 0x exchange.
--
-- Parts:
-- - Base: the names that all modules share, the integers of Python over the native numbers, and
--   `Result`, in which an exception is a value (`Error`).
-- - Decimal: the arithmetic of Python's `decimal` in its default context of 28 digits (the
--   repository never sets another), which rounds half to even, and of doubles, with 53 bits. These
--   are documented rules of Python, written out.
-- - Numeric: `pyflex/numeric.py`. Wad, Ray and Rad are modules of their own, with `self` as the
--   integer `value`; `Value` is what an operator may get, and `Classes` picks a class's function.
--   Exponents below 10^990 stay within the limits of the context. A product is cut off towards zero,
--   as the code does it; the comment on `Wad.__mul__` has a formula that rounds to the nearest unit.
-- - Gas: `pyflex/gas.py`. A strategy is a value of `GasPrice`, and `get_gas_price` gives `none` where
--   Python gives `None`. `Float` has the doubles of the geometric strategy, whose
--   coefficient is a double and not an `int`.
-- - Transact: `pyflex/__init__.py`. `Start.transact_async` is a prologue, which a replacement may keep
--   waiting, and `Loop.rounds`, one round for a turn of `while True`. A `Round` says what other tasks
--   have done before it (replaced the transaction, changed a fixed gas price, taken nonces) and what
--   the node and the clock answer in it; `none` stands for an exception. `sent` is a log of the calls
--   of the node, with their prices and nonces, the latest first. A run whose list of
--   rounds has come to its end is still running. Accounts,
--   addresses and hashes are numbers, since they are only compared. Prices are below the largest
--   double. `Recovered` has `get_pending_transactions` and `cancel_async`.
-- - Lifecycle: `pyflex/lifecycle.py`, `AsyncCallback` of `pyflex/util.py` and the filter threads of
--   `pyflex/__init__.py`. A callback counts its threads; `Loop.main_loop` takes what each turn meets;
--   `Exit.exit` gives the actions of `__exit__` in their order and the state.
-- - Batch: the script of `TxManager.execute` (`pyflex/transactional.py`), with the byte conversions of
--   `pyflex/util.py`. Approval: `pyflex/approval.py`.
-- - Chain: what the clients of contracts send and read (`Contract` and `Transact` of
--   `pyflex/__init__.py`). `Abi` is a value as web3 codes it, `Contract` is a function from a call to
--   its answer, `Call` is a transaction before it is sent, and `Codec` is web3's decoding of events.
--   They are parameters, and `past_events` is `Contract._past_events`; a contract answers alike
--   within one function of a client.
-- - Auctions: `pyflex/auctions.py`. `House` is `AuctionContract`, and there is a module for each
--   auction house, whose `Reading` describes the contract's values and events. `parse_event` goes by
--   `parse_as`, `active_auctions` of a house is `active`, and `init` is the assertion of a
--   constructor. `Laws` takes the houses together. The time in `House` is in microseconds, as Python's
--   clock counts it.
-- - Geb: `pyflex/gf.py`. `Types` has collateral types and SAFEs, `Engine`, `Modification` and `History`
--   are `SAFEEngine`, `Liquidation` is `LiquidationEngine`, and `Accounting`, `Oracle`, `Collector` and
--   `Adapters` have the smaller contracts. A name is given by its UTF-8 bytes. `History.chunks` has a
--   round of fuel for each block up to the newest, which is enough since every chunk has at least one
--   block of its own.
-- - Exchange: `pyflex/zrx.py`. An order, its JSON form over a type of texts, the exchange (`Zrx`), its
--   events, and the relayer's answers.
-- - Tokens: `Token` of `pyflex/model.py`, and the contracts of `pyflex/token.py`.
--
-- The parts meet where the code's do: Transact asks Gas for the price of a moment and reads the
-- arithmetic of doubles in Decimal; Gas and Numeric use Decimal, too. Auctions, Geb, Exchange and
-- Tokens compute with `Numeric.Amount`, which carries the class of a number, and make the calls of
-- Chain.
--
-- The node's answer to a request for a receipt may be an exception, `Transact.Receipt.get_receipt`
-- lets those through that `_get_receipt` does not catch, and the log's text at the end of an attempt
-- to find a receipt asks the node for the transaction count again.
--
-- Not modelled: log messages but for that request; how a transaction of Chain is sent, which Transact has for any
-- contract; the smaller wrappers of contracts (`oracles.py`, `governance.py` and others), which
-- call a node through web3, and the second 0x exchange (`zrxv2.py`); keys and signatures; exceptions
-- that the keeper's own functions raise.
pub mod Base
pub mod Decimal
pub mod Numeric
pub mod Gas
pub mod Transact
pub mod Lifecycle
pub mod Batch
pub mod Approval
pub mod Chain
pub mod Auctions
pub mod Geb
pub mod Exchange
pub mod Tokens
