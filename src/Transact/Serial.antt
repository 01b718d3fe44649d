-- ===== src/Transact/Serial.antt =====
-- `pyflex/__init__.py`: the nonces that the transactions of one process get, one after the other.
use pyflex.Base.{ℕ, ◌+◌, ◌≤◌, Bool, true, false, some, List, [], ◌∷◌}
use pyflex.Base.{◌≡◌, refl, sym, subst, ◌∙◌, if◌then◌else◌, ◌==◌, ==→eq, arith}
use pyflex.Base.{Option, none, ◌++◌, ◌⊎◌, inl, inr, ap, All}
use pyflex.Base.Results.{Result, Error, ok, err, ◌>>=◌}
use pyflex.Transact.State.{
  Tx, NonceCalculation, tx_count, parity_nextnonce, serial, parity_serial, Nonces,
}
use pyflex.Transact.Nonce.{NonceAnswers, choose_nonce, lookup, insert}
use pyflex.Transact.Loop.{
  Config, LoopState, Outcome, returned, Round, raise_if, assign_nonce, nonce_or, with_nonce,
  send_with, send_round, call_node, logged, priced,
}

pub lookup-insert :
    (account n : ℕ) (nonces : Nonces) → lookup account (insert account n nonces) ≡ some n
unfolding lookup insert
lookup-insert account n [] = ground arith
lookup-insert account n ((k, v) ∷ nonces) = ground (arith, lookup-insert account n nonces)

pub lookup-insert_ne :
    (account other n : ℕ) (nonces : Nonces)
    → (other == account) ≡ false
    → lookup account (insert other n nonces) ≡ lookup account nonces
unfolding lookup insert
lookup-insert_ne account other n [] e = ground arith
lookup-insert_ne account other n ((k, v) ∷ nonces) e =
    ground (arith, lookup-insert_ne account other n nonces e)

-- The calculations that keep the number of the next nonce in this process.
abbrev pub IsSerial : NonceCalculation → Type 0
IsSerial serial = Unit
IsSerial parity_serial = Unit
IsSerial tx_count = ⊥
IsSerial parity_nextnonce = ⊥

-- A transaction in a round in which it enters the lock, with the price that is due.
pub record Entry : Type 0 where
  pub config : Config
  pub round : Round
  pub price : Option ℕ
  pub tx : Tx

-- What the code leaves after it, with the process's `next_nonce` as it has found it.
abbrev pub entered : Entry → Nonces → LoopState
entered t nonces =
    (send_round t.config t.round t.price (record { tx = t.tx; nonces = nonces; sent = [] })).1

-- The nonce that a transaction has got, if it had none.
abbrev pub fresh : ℕ → Option ℕ → Option ℕ → List (ℕ × ℕ)
fresh account (some _) now = []
fresh account none none = []
fresh account none (some n) = (account, n) ∷ []

-- The nonces that transactions get which enter the lock one after the other, with their accounts.
unfoldable pub assigned : List Entry → Nonces → List (ℕ × ℕ)
unfolding send_round
assigned [] nonces = []
assigned (t ∷ ts) nonces =
    let s = entered t nonces in
    fresh t.config.from_account t.tx.nonce s.tx.nonce ++ assigned ts s.nonces

-- The account's nonces increase from `m` on.
abbrev pub IncreasesFrom : ℕ → ℕ → List (ℕ × ℕ) → Type 0
IncreasesFrom account m [] = Unit
IncreasesFrom account m ((k, n) ∷ more) =
    let rest = IncreasesFrom account m more in
    if k == account then (m ≤ n) × IncreasesFrom account (n + 1) more else rest

choose_nonce-le :
    (calculation : NonceCalculation) (a : NonceAnswers) (account m n : ℕ) (nonces : Nonces)
    → IsSerial calculation
    → lookup account nonces ≡ some m
    → choose_nonce calculation a account nonces ≡ ok n
    → m ≤ n
unfolding choose_nonce
choose_nonce-le serial a account m n nonces s e h = ground arith
choose_nonce-le parity_serial a account m n nonces s e h = ground arith
choose_nonce-le tx_count a account m n nonces s e h = absurd s
choose_nonce-le parity_nextnonce a account m n nonces s e h = absurd s

-- The next nonce of one account, whichever account has got the last one.
next-lookup :
    (k account m n : ℕ) (nonces : Nonces) (b : Bool)
    → (k == account) ≡ b
    → lookup account nonces ≡ some m
    → lookup account (insert k (n + 1) nonces) ≡ some (if b then n + 1 else m)
next-lookup k account m n nonces true e h =
    subst (λ a. lookup a (insert k (n + 1) nonces) ≡ some (n + 1)) (==→eq k account e)
      (lookup-insert k (n + 1) nonces)
next-lookup k account m n nonces false e h = lookup-insert_ne account k (n + 1) nonces e ∙ h

increases_if :
    (k account m n : ℕ) (more : List (ℕ × ℕ)) (b : Bool)
    → (b ≡ true → m ≤ n)
    → IncreasesFrom account (if b then n + 1 else m) more
    → (if b then (m ≤ n) × IncreasesFrom account (n + 1) more else IncreasesFrom account m more)
increases_if k account m n more true h i = (h refl, i)
increases_if k account m n more false h i = i

-- What is left once a nonce has been chosen, or could not be.
after_choice : Result (ℕ × LoopState) → LoopState → LoopState
after_choice (err e) s = s
after_choice (ok (n, t)) s = t

-- Neither the dictionary nor the transaction's nonce changes.
IsKept : LoopState → LoopState → Type 0
IsKept s t = (t.nonces ≡ s.nonces) × (t.tx.nonce ≡ s.tx.nonce)

raise_if-IsKept : (hashes : List ℕ) (e : Error) (s : LoopState) → IsKept s (raise_if hashes e s).1
unfolding raise_if IsKept
raise_if-IsKept [] e s = (refl, refl)
raise_if-IsKept (_ ∷ _) e s = (refl, refl)

call_node-IsKept :
    (c : Config) (price answered : Option ℕ) (n : ℕ) (s : LoopState)
    → IsKept s (call_node c price answered n s).1
unfolding call_node IsKept
call_node-IsKept c price none n s =
    raise_if-IsKept s.tx.tx_hashes Error.exception (logged c price none n s)
call_node-IsKept c price (some hash) n s = (refl, refl)

send_with-IsKept :
    (x : Result (ℕ × LoopState)) (c : Config) (r : Round) (price : Option ℕ) (s : LoopState)
    → IsKept (after_choice x s) (send_with x c r price s).1
unfolding send_with after_choice IsKept
send_with-IsKept (err e) c r price s = raise_if-IsKept s.tx.tx_hashes e s
send_with-IsKept (ok (n, t)) c r price s =
    let replaced : Outcome × LoopState =
      (returned none, record t { tx = record (t.tx) { replaced = true } }) in
    let sent : Outcome × LoopState = call_node c price r.send n t in
    elim (r.replaced_in_lock) as (λ b. IsKept t (if b then replaced else sent).1) [
      | true ↦ (refl, refl)
      | false ↦ call_node-IsKept c price r.send n t
    ]

-- A transaction gets no nonce and leaves the dictionary, or it gets the chosen one and writes it.
IsAdvance : Config → NonceAnswers → Nonces → Option ℕ → Nonces × Option ℕ → Type 0
IsAdvance c a nonces old (left, now) =
    ((left ≡ nonces) × (fresh c.from_account old now ≡ []))
    ⊎ ((n : ℕ) × (choose_nonce c.calculation a c.from_account nonces ≡ ok n)
        × (left ≡ insert c.from_account (n + 1) nonces)
        × (fresh c.from_account old now ≡ (c.from_account, n) ∷ []))

choice-IsAdvance :
    (x : Result ℕ) (c : Config) (a : NonceAnswers) (s : LoopState)
    → choose_nonce c.calculation a c.from_account s.nonces ≡ x
    → s.tx.nonce ≡ none
    → let t = after_choice (x >>= λ n. ok (with_nonce c s n)) s in
      IsAdvance c a s.nonces none (t.nonces, t.tx.nonce)
unfolding after_choice IsAdvance
choice-IsAdvance (err e) c a s h u = inl (refl, ap (fresh c.from_account none) u)
choice-IsAdvance (ok n) c a s h u = inr (n, h, refl, refl)

nonce_or-IsAdvance :
    (m : Option ℕ) (c : Config) (a : NonceAnswers) (s : LoopState)
    → s.tx.nonce ≡ m
    → let t = after_choice (nonce_or m c a s) s in IsAdvance c a s.nonces m (t.nonces, t.tx.nonce)
unfolding nonce_or after_choice IsAdvance
nonce_or-IsAdvance (some n) c a s u = inl (refl, refl)
nonce_or-IsAdvance none c a s u =
    choice-IsAdvance (choose_nonce c.calculation a c.from_account s.nonces) c a s refl u

entered-IsAdvance :
    (t : Entry) (nonces : Nonces)
    → IsAdvance t.config t.round.nonce_answers nonces t.tx.nonce
        ((entered t nonces).nonces, (entered t nonces).tx.nonce)
unfolding send_round IsKept
entered-IsAdvance t nonces =
    let c = t.config in
    let s : LoopState = record { tx = t.tx; nonces = nonces; sent = [] } in
    let p = priced t.price s in
    let a = t.round.nonce_answers in
    let x = assign_nonce c a p in
    let (e, f) : IsKept (after_choice x p) (send_with x c t.round t.price p).1 =
      send_with-IsKept x c t.round t.price p in
    subst (IsAdvance c a nonces t.tx.nonce) (λ i. (sym e i, sym f i))
      (nonce_or-IsAdvance t.tx.nonce c a p refl)

assigned-step :
    (c : Config) (a : NonceAnswers) (account m : ℕ) (nonces : Nonces) (old : Option ℕ)
    (left : Nonces) (now : Option ℕ) (next : Nonces → List (ℕ × ℕ))
    → IsSerial c.calculation
    → lookup account nonces ≡ some m
    → ((l : ℕ) (known : Nonces)
        → lookup account known ≡ some l
        → IncreasesFrom account l (next known))
    → IsAdvance c a nonces old (left, now)
    → IncreasesFrom account m (fresh c.from_account old now ++ next left)
unfolding IsAdvance
assigned-step c a account m nonces old left now next s h f (inl (e, none_new)) =
    subst (λ l. IncreasesFrom account m (l ++ next left)) (sym none_new)
      (f m left (ap (lookup account) e ∙ h))
assigned-step c a account m nonces old left now next s h f (inr (n, chosen, e, new)) =
    let k = c.from_account in
    subst (λ l. IncreasesFrom account m (l ++ next left)) (sym new)
      (increases_if k account m n (next left) (k == account)
        (λ own.
          choose_nonce-le c.calculation a k m n nonces s
            (subst (λ b. lookup b nonces ≡ some m) (sym (==→eq k account own)) h) chosen)
        (f (if k == account then n + 1 else m) left
          (ap (lookup account) e ∙ next-lookup k account m n nonces (k == account) refl h)))

-- By serial calculations, with an entry in `next_nonce` for the account to begin with: whatever the
-- node answers, whichever accounts send in between, and whether or not the sends fail, the nonces
-- that the account's transactions get in the lock increase strictly from the entry on, so no two of
-- them are the same.
pub assigned-IncreasesFrom :
    (ts : List Entry) (account m : ℕ) (nonces : Nonces)
    → All (λ t. IsSerial t.config.calculation) ts
    → lookup account nonces ≡ some m
    → IncreasesFrom account m (assigned ts nonces)
unfolding assigned
assigned-IncreasesFrom [] account m nonces s h = tt
assigned-IncreasesFrom (t ∷ ts) account m nonces (s, k) h =
    assigned-step t.config t.round.nonce_answers account m nonces t.tx.nonce
      (entered t nonces).nonces (entered t nonces).tx.nonce (assigned ts) s h
      (λ l known e. assigned-IncreasesFrom ts account l known k e) (entered-IsAdvance t nonces)
