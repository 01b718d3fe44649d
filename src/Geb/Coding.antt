-- ===== src/Geb/Coding.antt =====
-- `toBytes` and `fromBytes` of `pyflex/gf.py`: collateral types and SAFEs come back from their bytes.
use pyflex.Base.{
  ℕ, zero, suc, ◌-◌, ◌<◌, ◌≤◌, ◌^◌, Bool, true, ◌==◌, if◌then◌else◌, List, [], ◌∷◌, ◌++◌, length,
  drop, replicate, length-append, ◌≡◌, ◌≢◌, refl, ap, ◌∙◌, arith,
}
use pyflex.Base.Results.{ok, err, value_error}
use pyflex.Batch.{to_bytes as big_endian, from_bytes}
use pyflex.Batch.Decoding.{from-to_bytes, length-to_bytes}
use pyflex.Geb.Types.{
  Safe, named, safe_at, type_to_bytes, type_from_bytes, lstrip, put, rstrip, strip, safe_to_bytes,
  safe_from_bytes,
}

-- Bytes that neither begin nor end with 0.
abbrev pub last : ℕ → List ℕ → ℕ
last b [] = b
last b (c ∷ bytes) = last c bytes

abbrev pub IsTrimmed : List ℕ → Type 0
IsTrimmed [] = Unit
IsTrimmed (b ∷ bytes) = (b ≢ 0) × (last b bytes ≢ 0)

rstrip-zeros : (n : ℕ) → rstrip (replicate n 0) ≡ []
unfolding rstrip
rstrip-zeros zero = refl
rstrip-zeros (suc n) = ap (put 0) (rstrip-zeros n)

rstrip-append :
    (b : ℕ) (bytes : List ℕ) (n : ℕ)
    → last b bytes ≢ 0
    → rstrip ((b ∷ bytes) ++ replicate n 0) ≡ b ∷ bytes
unfolding rstrip
rstrip-append b [] n h = ap (put b) (rstrip-zeros n) ∙ ground arith
rstrip-append b (c ∷ bytes) n h = ap (put b) (rstrip-append c bytes n h)

lstrip-front : (b : ℕ) (bytes : List ℕ) → b ≢ 0 → lstrip (b ∷ bytes) ≡ b ∷ bytes
unfolding lstrip
lstrip-front b bytes h = ground arith

lstrip-zeros : (n : ℕ) → lstrip (replicate n 0) ≡ []
unfolding lstrip
lstrip-zeros zero = refl
lstrip-zeros (suc n) = lstrip-zeros n

strip-padded : (name : List ℕ) (n : ℕ) → IsTrimmed name → strip (name ++ replicate n 0) ≡ name
unfolding strip
strip-padded [] n trimmed = ap rstrip (lstrip-zeros n)
strip-padded (b ∷ bytes) n (front, back) =
    ap rstrip (lstrip-front b (bytes ++ replicate n 0) front) ∙ rstrip-append b bytes n back

length-replicate : (n b : ℕ) → length (replicate n b) ≡ n
length-replicate zero b = refl
length-replicate (suc n) b = ap suc (length-replicate n b)

-- A name in UTF-8 that neither begins nor ends with a zero byte comes back from its bytes, which are 32
-- for a name of at most 32.
pub type_from-to_bytes :
    (is_utf8 : List ℕ → Bool) (name : List ℕ)
    → is_utf8 name ≡ true
    → IsTrimmed name
    → length name ≤ 32
    → (length (type_to_bytes (named name)) ≡ 32)
      × (type_from_bytes is_utf8 (type_to_bytes (named name)) ≡ ok (named name))
unfolding type_to_bytes type_from_bytes
type_from-to_bytes is_utf8 name utf8 trimmed short = (
  length-append name (replicate (32 - length name) 0)
      ∙ omega (arith, length-replicate (32 - length name) 0),
  ap (λ b. if is_utf8 b then ok (named b) else err value_error)
        (strip-padded name (32 - length name) trimmed)
      ∙ ap (λ b. if b then ok (named name) else err value_error) utf8,
)

drop-append : {A : Type 0} (xs ys : List A) (n : ℕ) → length xs ≡ n → drop n (xs ++ ys) ≡ ys
drop-append [] ys zero h = refl
drop-append [] ys (suc n) h = ground arith
drop-append (x ∷ xs) ys zero h = ground arith
drop-append (x ∷ xs) ys (suc n) h = drop-append xs ys n (omega arith)

last_bytes :
    (safe : Safe)
    → drop (length (safe_to_bytes safe) - 20) (safe_to_bytes safe) ≡ big_endian 20 safe.address
unfolding safe_to_bytes
last_bytes safe =
    drop-append (replicate 12 0) (big_endian 20 safe.address)
      (length (replicate 12 0 ++ big_endian 20 safe.address) - 20)
      (omega (
        arith,
        length-append (replicate 12 0) (big_endian 20 safe.address),
        length-to_bytes 20 safe.address,
      ))

-- The address of a SAFE comes back from its 32 bytes.
pub safe_from-to_bytes :
    (safe : Safe)
    → safe.address < 256 ^ 20
    → safe_from_bytes (safe_to_bytes safe) ≡ ok (safe_at safe.address)
unfolding safe_from_bytes
safe_from-to_bytes safe small =
    ap (λ bytes. if length bytes == 20 then ok (safe_at (from_bytes 0 bytes)) else err value_error)
      (last_bytes safe)
    ∙ ap
        (λ n.
          if n == 20
          then ok (safe_at (from_bytes 0 (big_endian 20 safe.address)))
          else err value_error)
        (length-to_bytes 20 safe.address)
    ∙ ap (λ address. ok (safe_at address)) (from-to_bytes 20 safe.address small)
