-- ===== src/Chain.antt =====
-- `Contract` of `pyflex/__init__.py`: what the clients of contracts send to the node and read from
-- it. The contracts themselves and the coding of their values are web3's and the chain's.
use Prim.Native.String.{String}
use text.Mathlib.Text.{◌==◌ as same_text}
use pyflex.Base.{
  ℕ, zero, suc, Bool, true, false, ◌&&◌, ◌==◌, not, List, [], ◌∷◌, ◌++◌, if◌then◌else◌, ◌-◌, length,
  replicate,
}
use pyflex.Base.Int.{ℤ, pos, pos_part, ◌-ℤ◌, ltb_ℤ, eqb_ℤ}
use pyflex.Base.Results.{
  Result, ok, err, ◌>>=◌, arithmetic_error, value_error, key_error, index_error, map_result,
  traverse,
}
use pyflex.Numeric.Classes.{Class}
use pyflex.Numeric.Amount.{Amount, of_int}

-- A value as web3 codes it: an integer, an address, bytes, a text, an
-- array of integers or addresses, or a truth value. An address is a number.
pub data Abi : Type 0 where
  number : ℤ → Abi
  address : ℕ → Abi
  octets : List ℕ → Abi
  words : String → Abi
  numbers : List ℤ → Abi
  addresses : List ℕ → Abi
  flag : Bool → Abi

-- The `Transact` that calls the function of a contract.
pub record Call : Type 0 where
  pub contract : ℕ
  pub function : String
  pub arguments : List Abi

-- A contract, as calls of its functions that are not transactions are answered: the values, or an
-- exception.
abbrev pub Contract : Type 0
Contract = String → List Abi → Result (List Abi)

abbrev pub zero_address : ℕ
zero_address = 0

-- `array[i]`
unfoldable pub at : ℕ → List Abi → Result Abi
at i [] = err index_error
at zero (v ∷ values) = ok v
at (suc i) (v ∷ values) = at i values

-- The arguments of an event, by name.
abbrev pub Args : Type 0
Args = List (String × Abi)

-- `args[name]`
unfoldable pub get : String → Args → Result Abi
get name [] = err key_error
get name ((k, v) ∷ args) = let rest = get name args in if same_text k name then ok v else rest

-- `int(v)`
unfoldable pub int_of : Abi → Result ℤ
int_of (number n) = ok n
int_of (address a) = err value_error
int_of (octets b) = err value_error
int_of (words t) = err value_error
int_of (numbers ns) = err value_error
int_of (addresses accounts) = err value_error
int_of (flag b) = err value_error

-- `Address(v)`
unfoldable pub address_of : Abi → Result ℕ
address_of (address a) = ok a
address_of (number n) = err value_error
address_of (octets b) = err value_error
address_of (words t) = err value_error
address_of (numbers ns) = err value_error
address_of (addresses accounts) = err value_error
address_of (flag b) = err value_error

-- `Wad(v)`, `Ray(v)` or `Rad(v)`
unfoldable pub amount_of : (c : Class) → Abi → Result (Amount c)
amount_of c (number n) = of_int n
amount_of c (address a) = err arithmetic_error
amount_of c (octets b) = err arithmetic_error
amount_of c (words t) = err arithmetic_error
amount_of c (numbers ns) = err arithmetic_error
amount_of c (addresses accounts) = err arithmetic_error
amount_of c (flag b) = err arithmetic_error

-- The one value that a function answers.
unfoldable pub read : Contract → String → List Abi → Result Abi
unfolding at
read contract function arguments = contract function arguments >>= at 0

unfoldable pub read_int : Contract → String → List Abi → Result ℤ
unfolding read int_of
read_int contract function arguments = read contract function arguments >>= int_of

unfoldable pub read_address : Contract → String → List Abi → Result ℕ
unfolding read address_of
read_address contract function arguments = read contract function arguments >>= address_of

unfoldable pub read_amount : (c : Class) → Contract → String → List Abi → Result (Amount c)
unfolding read amount_of
read_amount c contract function arguments = read contract function arguments >>= amount_of c

-- `call() > 0`
unfoldable pub read_positive : Contract → String → List Abi → Result Bool
unfolding read_int
read_positive contract function arguments =
    map_result (λ n. ltb_ℤ (pos 0) n) (read_int contract function arguments)

-- `bool(call())`
unfoldable pub read_bool : Contract → String → List Abi → Result Bool
unfolding read_int
read_bool contract function arguments =
    map_result (λ n. not (eqb_ℤ n (pos 0))) (read_int contract function arguments)

-- `max(block_number - number_of_past_blocks, 0)`
unfoldable pub first_block : ℕ → ℤ → ℕ
unfolding ◌-ℤ◌
first_block block_number number_of_past_blocks =
    pos_part (pos block_number -ℤ number_of_past_blocks)

-- `string.encode('utf-8').ljust(32, bytes(1))`, of a text given by its UTF-8 bytes.
unfoldable pub to_bytes : List ℕ → List ℕ
to_bytes text = text ++ replicate (32 - length text) 0

unfoldable pub same_octets : List ℕ → List ℕ → Bool
same_octets [] [] = true
same_octets [] (b ∷ bs) = false
same_octets (a ∷ rest) [] = false
same_octets (a ∷ rest) (b ∷ bs) = (a == b) && same_octets rest bs

-- `v == b` for bytes `b`
unfoldable pub is_octets : Abi → List ℕ → Bool
unfolding same_octets
is_octets (octets a) b = same_octets a b
is_octets (number n) b = false
is_octets (address a) b = false
is_octets (words t) b = false
is_octets (numbers ns) b = false
is_octets (addresses accounts) b = false
is_octets (flag f) b = false

-- An event as web3 decodes it.
pub record Log : Type 0 where
  pub args : Args
  pub block_number : ℕ
  pub transaction_hash : String

-- web3's reading of the node's events: their topics as hexadecimal texts, and `get_event_data` with
-- the event of a contract's ABI that has a name.
pub record Codec (Raw : Type 0) : Type 0 where
  pub topics : Raw → List String
  pub get_event_data : String → Raw → Result Log

unfoldable pub first_topic : List String → Result String
first_topic [] = err index_error
first_topic (topic ∷ topics) = ok topic

-- `event['topics'][0]`
unfoldable pub signature : {Raw : Type 0} → Codec Raw → Raw → Result String
unfolding first_topic
signature codec event = first_topic (codec.topics event)

-- `(a, b) = values` and so on.
unfoldable pub two : List Abi → Result (Abi × Abi)
two (a ∷ b ∷ []) = ok (a, b)
two _ = err value_error

unfoldable pub three : List Abi → Result (Abi × Abi × Abi)
three (a ∷ b ∷ c ∷ []) = ok (a, b, c)
three _ = err value_error

unfoldable pub six : List Abi → Result (Abi × Abi × Abi × Abi × Abi × Abi)
six (a ∷ b ∷ c ∷ d ∷ e ∷ f ∷ []) = ok (a, b, c, d, e, f)
six _ = err value_error

-- A transaction of the client's contract.
abbrev pub transact : ℕ → String → List Abi → Call
transact self function arguments = record {
  contract = self;
  function = function;
  arguments = arguments;
}

-- `_past_events`: the node's entries for the last blocks, each made a log of a class.
unfoldable pub past_events :
    {E : Type 0}
    → (Log → Result E)
    → (get_all_entries : ℕ → ℕ → Result (List Log)) → (block_number : ℕ)
    → (number_of_past_blocks : ℤ) → Result (List E)
unfolding first_block
past_events cls get_all_entries block_number number_of_past_blocks =
    get_all_entries (first_block block_number number_of_past_blocks) block_number >>= traverse cls
