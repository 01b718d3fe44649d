-- ===== src/Batch/Decoding.antt =====
-- `pyflex/transactional.py`: the script of a batch can be read back.
use pyflex.Base.{
  ℕ, zero, suc, ◌+◌, ◌*◌, ◌/◌, ◌%◌, ◌^◌, ◌<◌, List, [], ◌∷◌, ◌++◌, length, take, drop, All,
}
use pyflex.Base.{◌≡◌, refl, ap, subst, ◌∙◌, arith, lt→ltb, length-append, if◌then◌else◌}
use pyflex.Base.Int.{pos}
use pyflex.Base.Results.{ok, err, overflow_error, map_result}
use pyflex.Batch.Bytes.{to_bytes, int_to_bytes32, from_bytes, bytes_to_int}
use pyflex.Batch.Script.{Invocation, script_entry, script}

from_bytes-append :
    (acc b : ℕ) (bytes : List ℕ)
    → from_bytes acc (bytes ++ (b ∷ [])) ≡ from_bytes acc bytes * 256 + b
unfolding from_bytes
from_bytes-append acc b [] = refl
from_bytes-append acc b (c ∷ bytes) = from_bytes-append (acc * 256 + c) b bytes

pow_suc : (k : ℕ) → 256 ^ suc k ≡ 256 ^ k * 256
pow_suc k = omega arith

pub from-to_bytes : (k n : ℕ) → n < 256 ^ k → from_bytes 0 (to_bytes k n) ≡ n
unfolding to_bytes from_bytes
from-to_bytes zero n h = omega arith
from-to_bytes (suc k) n h =
    let rest : from_bytes 0 (to_bytes k (n / 256)) ≡ n / 256 =
      from-to_bytes k (n / 256) (omega (arith, pow_suc k)) in
    from_bytes-append 0 (n % 256) (to_bytes k (n / 256)) ∙ omega (arith, rest)

pub length-to_bytes : (k n : ℕ) → length (to_bytes k n) ≡ k
unfolding to_bytes
length-to_bytes zero n = refl
length-to_bytes (suc k) n =
    length-append (to_bytes k (n / 256)) (n % 256 ∷ []) ∙ omega (arith, length-to_bytes k (n / 256))

-- A number below `256 ^ 32` comes back from its 32 bytes.
int_to_bytes32_roundtrip :
    (n : ℕ) → n < 256 ^ 32 → map_result bytes_to_int (int_to_bytes32 (pos n)) ≡ ok n
unfolding int_to_bytes32 bytes_to_int
int_to_bytes32_roundtrip n h =
    ap (λ b. map_result (from_bytes 0) (if b then ok (to_bytes 32 n) else err overflow_error))
      (lt→ltb n (256 ^ 32) h)
    ∙ ap ok (from-to_bytes 32 n h)

module _ {ℓ} {A : Type ℓ} where
  append_assoc : (xs ys zs : List A) → (xs ++ ys) ++ zs ≡ xs ++ (ys ++ zs)
  append_assoc [] ys zs = refl
  append_assoc (x ∷ xs) ys zs = ap (λ l. x ∷ l) (append_assoc xs ys zs)

  take-append : (xs ys : List A) → take (length xs) (xs ++ ys) ≡ xs
  take-append [] ys = refl
  take-append (x ∷ xs) ys = ap (λ l. x ∷ l) (take-append xs ys)

  drop-append : (xs ys : List A) → drop (length xs) (xs ++ ys) ≡ ys
  drop-append [] ys = refl
  drop-append (x ∷ xs) ys = drop-append xs ys

  take_first : (n : ℕ) (xs ys : List A) → length xs ≡ n → take n (xs ++ ys) ≡ xs
  take_first n xs ys e = subst (λ k. take k (xs ++ ys) ≡ xs) e (take-append xs ys)

  drop_first : (n : ℕ) (xs ys : List A) → length xs ≡ n → drop n (xs ++ ys) ≡ ys
  drop_first n xs ys e = subst (λ k. drop k (xs ++ ys) ≡ ys) e (drop-append xs ys)

-- Reading the address, the length and the call data of an entry, and then the others.
unfoldable pub read_data : ℕ → List ℕ → (List ℕ → List Invocation) → List ℕ → List Invocation
read_data n address next bytes =
    record { address = address; calldata = take n bytes } ∷ next (drop n bytes)

unfoldable pub read_length : List ℕ → (List ℕ → List Invocation) → List ℕ → List Invocation
unfolding read_data from_bytes
read_length address next bytes =
    read_data (from_bytes 0 (take 32 bytes)) address next (drop 32 bytes)

unfoldable pub read_script : ℕ → List ℕ → List Invocation
unfolding read_length
read_script zero bytes = []
read_script (suc entries) bytes = read_length (take 20 bytes) (read_script entries) (drop 20 bytes)

read_data-eq :
    (address calldata rest : List ℕ) (next : List ℕ → List Invocation)
    → read_data (length calldata) address next (calldata ++ rest)
      ≡ (record { address = address; calldata = calldata } ∷ next rest)
unfolding read_data
read_data-eq address calldata rest next =
    ap
      (λ c.
        record { address = address; calldata = c }
        ∷ next (drop (length calldata) (calldata ++ rest)))
      (take-append calldata rest)
    ∙ ap (λ bytes. record { address = address; calldata = calldata } ∷ next bytes)
        (drop-append calldata rest)

read_length-eq :
    (address calldata rest : List ℕ) (next : List ℕ → List Invocation)
    → length calldata < 256 ^ 32
    → read_length address next (to_bytes 32 (length calldata) ++ (calldata ++ rest))
      ≡ (record { address = address; calldata = calldata } ∷ next rest)
unfolding read_length
read_length-eq address calldata rest next h =
    let n = length calldata in
    let size = to_bytes 32 n in
    let whole = size ++ (calldata ++ rest) in
    ap (λ l. read_data (from_bytes 0 l) address next (drop 32 whole))
      (take_first 32 size (calldata ++ rest) (length-to_bytes 32 n))
    ∙ ap (λ k. read_data k address next (drop 32 whole)) (from-to_bytes 32 n h)
    ∙ ap (λ l. read_data n address next l)
        (drop_first 32 size (calldata ++ rest) (length-to_bytes 32 n))
    ∙ read_data-eq address calldata rest next

abbrev pub IsPackable : Invocation → Type 0
IsPackable i = (length i.address ≡ 20) × (length i.calldata < 256 ^ 32)

script_entry-append :
    (i : Invocation) (rest : List ℕ)
    → script_entry i ++ rest
      ≡ i.address ++ (to_bytes 32 (length i.calldata) ++ (i.calldata ++ rest))
unfolding script_entry
script_entry-append i rest =
    append_assoc i.address (to_bytes 32 (length i.calldata) ++ i.calldata) rest
    ∙ ap (λ l. i.address ++ l) (append_assoc (to_bytes 32 (length i.calldata)) i.calldata rest)

read_script_entry :
    (entries : ℕ) (i : Invocation) (rest : List ℕ)
    → IsPackable i
    → read_script (suc entries) (script_entry i ++ rest) ≡ (i ∷ read_script entries rest)
unfolding read_script
read_script_entry entries i rest (e, h) =
    let tail = to_bytes 32 (length i.calldata) ++ (i.calldata ++ rest) in
    ap (λ l. read_length (take 20 l) (read_script entries) (drop 20 l)) (script_entry-append i rest)
    ∙ ap (λ a. read_length a (read_script entries) (drop 20 (i.address ++ tail)))
        (take_first 20 i.address tail e)
    ∙ ap (λ l. read_length i.address (read_script entries) l) (drop_first 20 i.address tail e)
    ∙ read_length-eq i.address i.calldata rest (read_script entries) h

-- If every address has 20 bytes and every call data is shorter than `256 ^ 32`, then the script of
-- a batch, read entry by entry, gives exactly the invocations of the batch, in their order.
pub script_roundtrip :
    (invocations : List Invocation)
    → All IsPackable invocations
    → read_script (length invocations) (script invocations) ≡ invocations
unfolding script read_script
script_roundtrip [] h = refl
script_roundtrip (i ∷ invocations) (h, hs) =
    read_script_entry (length invocations) i (script invocations) h
    ∙ ap (λ l. i ∷ l) (script_roundtrip invocations hs)
