-- ===== src/Transact/Answers.antt =====
-- `pyflex/__init__.py`: when the search for a receipt raises no exception.
use pyflex.Base.{
  ℕ, zero, suc, ◌+◌, Bool, true, false, ◌||◌, ◌==◌, Option, none, some, List, [], ◌∷◌,
}
use pyflex.Base.{◌≡◌, ◌⊎◌, inl, inr, refl, sym, subst, if◌then◌else◌, All}
use pyflex.Base.Results.{Result, Error, ok, err, ◌>>=◌, value_error, key_error}
use pyflex.Transact.State.{Receipt}
use pyflex.Transact.Receipt.{
  Log, EventArgs, RawReceipt, transfer_topic, mint_topic, burn_topic, transfer_if,
  transfers_of_topic, transfers_of_topics, transfers, status_of, new_receipt, is_caught,
  catch_missing, read_receipt, get_receipt,
}
use pyflex.Transact.Loop.{
  Attempt, receipt_of, first_receipt, check_hashes, result_or, search_receipt,
}

abbrev pub IsSome : Option ℕ → Type 0
IsSome none = ⊥
IsSome (some _) = Unit

abbrev pub IsOk {ℓ} : {R : Type ℓ} → Result R → Type 0
IsOk (err e) = ⊥
IsOk (ok r) = Unit

-- The exceptions that stand for a missing transaction.
abbrev pub IsMissing : Error → Type 0
IsMissing e = (e ≡ value_error) ⊎ (e ≡ key_error)

-- An attempt in which the node answers: with no exception but those for a missing transaction, with
-- logs that can be decoded, and with the transaction count; and `result_function` raises nothing.
abbrev pub IsAnswering : Attempt → Type 0
IsAnswering a =
    ((h : ℕ) (e : Error) → a.find h ≡ err e → IsMissing e)
    × ((h : ℕ) (r : RawReceipt) → a.find h ≡ ok (some r) → All (λ l. IsOk l.event) r.logs)
    × ((receipt : Receipt) → IsOk (a.result_function receipt))
    × IsSome a.count_again

bind-IsOk :
    {R S : Type 0} (x : Result R) (f : R → Result S)
    → IsOk x
    → ((r : R) → IsOk (f r))
    → IsOk (x >>= f)
bind-IsOk (err e) f h k = h
bind-IsOk (ok r) f h k = k r

transfer_if-IsOk :
    (b : Bool) (l : Log) (src dst : EventArgs → ℕ) → IsOk l.event → IsOk (transfer_if b l src dst)
unfolding transfer_if
transfer_if-IsOk false l src dst h = tt
transfer_if-IsOk true l src dst h =
    elim l.event as (λ x. IsOk x → IsOk (transfer_if true (record l { event = x }) src dst)) [
      | err e ↦ λ k. k
      | ok e ↦ λ k. tt
    ]
      h

transfers_of_topics-IsOk :
    (topics : List ℕ) (l : Log) → IsOk l.event → IsOk (transfers_of_topics topics l)
unfolding transfers_of_topics transfers_of_topic
transfers_of_topics-IsOk [] l h = tt
transfers_of_topics-IsOk (topic ∷ topics) l h =
    bind-IsOk (transfer_if (topic == transfer_topic) l _ _) _ (transfer_if-IsOk _ l _ _ h) (λ _.
      bind-IsOk (transfer_if (topic == mint_topic) l _ _) _ (transfer_if-IsOk _ l _ _ h) (λ _.
        bind-IsOk (transfer_if (topic == burn_topic) l _ _) _ (transfer_if-IsOk _ l _ _ h)
          (λ _. tt)))

transfers-IsOk : (logs : List Log) → All (λ l. IsOk l.event) logs → IsOk (transfers logs)
unfolding transfers
transfers-IsOk [] h = tt
transfers-IsOk (l ∷ logs) (h, k) =
    bind-IsOk (transfers_of_topics l.topics l) _ (transfers_of_topics-IsOk l.topics l h)
      (λ _. bind-IsOk (transfers logs) _ (transfers-IsOk logs k) (λ _. tt))

-- A value, or an exception that is caught.
IsTame : {R : Type 0} → Result R → Type 0
IsTame (ok r) = Unit
IsTame (err e) = is_caught e ≡ true

bind-IsTame :
    {R S : Type 0} (x : Result R) (f : R → Result S)
    → IsTame x
    → ((r : R) → IsTame (f r))
    → IsTame (x >>= f)
unfolding IsTame
bind-IsTame (err e) f h k = h
bind-IsTame (ok r) f h k = k r

tame : {R : Type 0} (x : Result R) → IsOk x → IsTame x
unfolding IsTame
tame (err e) h = absurd h
tame (ok r) h = tt

status_of-IsTame : (status : Option ℕ) → IsTame (status_of status)
unfolding status_of IsTame
status_of-IsTame none = refl
status_of-IsTame (some status) =
    elim (status == 1)
      as (λ b. IsTame (if b then ok true else if status == 0 then ok false else err value_error)) [
        | true ↦ tt
        | false ↦ elim (status == 0) as (λ b. IsTame (if b then ok false else err value_error)) [
          | true ↦ tt
          | false ↦ refl
        ]
      ]

new_receipt-IsTame : (r : RawReceipt) → All (λ l. IsOk l.event) r.logs → IsTame (new_receipt r)
unfolding new_receipt IsTame
new_receipt-IsTame r h = bind-IsTame (status_of r.status) _ (status_of-IsTame r.status) (λ _.
    bind-IsTame (transfers r.logs) _ (tame (transfers r.logs) (transfers-IsOk r.logs h)) (λ _. tt))

block_read :
    (b : Option ℕ) (f : Receipt → Result (Unit {0})) (x : Result Receipt)
    → ((receipt : Receipt) → IsOk (f receipt))
    → IsTame x
    → IsTame
        (elim b [ none ↦ ok none | some _ ↦ x >>= λ receipt. f receipt >>= λ _. ok (some receipt) ])
unfolding IsTame
block_read none f x k h = tt
block_read (some _) f x k h =
    bind-IsTame x _ h
      (λ receipt. bind-IsTame (f receipt) _ (tame (f receipt) (k receipt)) (λ _. tt))

read-IsTame :
    (a : Attempt) (h : ℕ) (x : Result (Option RawReceipt))
    → a.find h ≡ x
    → IsAnswering a
    → IsTame (x >>= read_receipt a.result_function)
unfolding read_receipt IsTame
read-IsTame a h (err e) found (missing, _, _, _) = elim (missing h e found) [
  | inl k ↦ subst (λ x. is_caught x ≡ true) (sym k) refl
  | inr k ↦ subst (λ x. is_caught x ≡ true) (sym k) refl
]
read-IsTame a h (ok none) found k = tt
read-IsTame a h (ok (some r)) found (_, decoded, result, _) =
    block_read r.block_number a.result_function (new_receipt r) result
      (new_receipt-IsTame r (decoded h r found))

catch_missing-IsOk : (x : Result (Option Receipt)) → IsTame x → IsOk (catch_missing x)
unfolding catch_missing IsTame
catch_missing-IsOk (ok receipt) h = tt
catch_missing-IsOk (err e) h =
    subst (λ b. IsOk {R = Option Receipt} (if b then ok none else err e)) (sym h) tt

receipt_of-IsOk : (a : Attempt) (h : ℕ) → IsAnswering a → IsOk (receipt_of a h)
unfolding receipt_of get_receipt
receipt_of-IsOk a h k =
    catch_missing-IsOk (a.find h >>= read_receipt a.result_function)
      (read-IsTame a h (a.find h) refl k)

first_receipt-IsOk :
    (x : Result (Option Receipt)) (rest : Result (Option (Option Receipt)))
    → IsOk x
    → IsOk rest
    → IsOk (first_receipt x rest)
unfolding first_receipt
first_receipt-IsOk (err e) rest h k = h
first_receipt-IsOk (ok none) rest h k = k
first_receipt-IsOk (ok (some receipt)) rest h k = tt

check_hashes-IsOk : (a : Attempt) (hashes : List ℕ) → IsAnswering a → IsOk (check_hashes a hashes)
unfolding check_hashes
check_hashes-IsOk a [] k = tt
check_hashes-IsOk a (h ∷ hashes) k =
    first_receipt-IsOk (receipt_of a h) (check_hashes a hashes) (receipt_of-IsOk a h k)
      (check_hashes-IsOk a hashes k)

result_or-IsOk :
    (x : Result (Option (Option Receipt))) (count : Option ℕ) (rest : Result (Option Receipt))
    → IsOk x
    → IsSome count
    → IsOk rest
    → IsOk (result_or x count rest)
unfolding result_or
result_or-IsOk (err e) count rest h c k = h
result_or-IsOk (ok (some result)) count rest h c k = tt
result_or-IsOk (ok none) none rest h c k = c
result_or-IsOk (ok none) (some _) rest h c k = k

pub search_receipt-IsOk :
    (left i : ℕ) (attempt : ℕ → Attempt) (replaced : Bool) (hashes : List ℕ)
    → ((j : ℕ) → IsAnswering (attempt j))
    → IsOk (search_receipt left i attempt replaced hashes)
unfolding search_receipt
search_receipt-IsOk zero i attempt replaced hashes k = tt
search_receipt-IsOk (suc left) i attempt replaced hashes k =
    let a = attempt i in
    let rest = search_receipt left (i + 1) attempt replaced hashes in
    let found = result_or (check_hashes a hashes) a.count_again rest in
    elim (replaced || a.replaced_by_now) as (λ b. IsOk (if b then ok none else found)) [
      | true ↦ tt
      | false ↦
          result_or-IsOk (check_hashes a hashes) a.count_again rest
            (check_hashes-IsOk a hashes (k i)) (k i).3
            (search_receipt-IsOk left (i + 1) attempt replaced hashes k)
    ]
