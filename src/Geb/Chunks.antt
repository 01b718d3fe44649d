-- ===== src/Geb/Chunks.antt =====
-- The loop of `past_safe_modifications` of `pyflex/gf.py`: it ends, it reports the events of every block
-- of its range, and those of the blocks where a chunk follows another twice.
use pyflex.Base.{
  ℕ, zero, suc, ◌+◌, ◌-◌, ◌%◌, ◌≤◌, ◌<◌, min, true, false, not, ◌==◌, ◌&&◌, if◌then◌else◌, List, [],
  ◌∷◌, ◌++◌, some, ◌≡◌, refl, sym, ap, ◌∙◌, ◌⊎◌, inl, inr, arith,
}
use native.Mathlib.Nat.{mod-eq_of_lt, mod_self, add-mod_left}
use pyflex.Base.Results.{Result, ok}
use pyflex.Geb.History.{extend, chunks}

le_cases : (a b : ℕ) → (a ≤ b) ⊎ (b < a)
le_cases a b = omega arith

module _ {E : Type 0} where
  append_assoc : (xs ys zs : List E) → (xs ++ ys) ++ zs ≡ xs ++ (ys ++ zs)
  append_assoc [] ys zs = refl
  append_assoc (x ∷ xs) ys zs = ap (λ l. x ∷ l) (append_assoc xs ys zs)

  append_nil : (xs : List E) → xs ++ [] ≡ xs
  append_nil [] = refl
  append_nil (x ∷ xs) = ap (λ l. x ∷ l) (append_nil xs)

  module _ (events : ℕ → List E) where
    -- The events of `n` blocks from `block` on.
    abbrev pub span : (block n : ℕ) → List E
    span block zero = []
    span block (suc n) = events block ++ span (suc block) n

    -- The events of the block `index` blocks behind `start`, twice if a chunk follows another there.
    unfoldable pub listing : (chunk_size start index : ℕ) → List E
    listing chunk_size start index =
        if not (index == 0) && ((index % chunk_size) == 0)
        then events (start + index) ++ events (start + index)
        else events (start + index)

    -- Those of `n` blocks.
    unfoldable pub reported : (chunk_size start index n : ℕ) → List E
    unfolding listing
    reported chunk_size start index zero = []
    reported chunk_size start index (suc n) =
        listing chunk_size start index ++ reported chunk_size start (suc index) n

    span-append : (block m n : ℕ) → span block (m + n) ≡ span block m ++ span (block + m) n
    span-append block zero n =
        ap (λ k. span block k) {y = n} (omega arith) ∙ ap (λ b. span b n) (omega arith)
    span-append block (suc m) n =
        ap (λ k. span block k) {y = suc (m + n)} (omega arith)
        ∙ ap (λ l. events block ++ l)
            (span-append (suc block) m n
              ∙ ap (λ b. span (suc block) m ++ span b n) {y = block + suc m} (omega arith))
        ∙ sym (append_assoc (events block) (span (suc block) m) (span (block + suc m) n))

    reported-append :
        (size start index m n : ℕ)
        → reported size start index (m + n)
          ≡ reported size start index m ++ reported size start (index + m) n
    unfolding reported
    reported-append size start index zero n =
        ap (λ k. reported size start index k) {y = n} (omega arith)
        ∙ ap (λ i. reported size start i n) (omega arith)
    reported-append size start index (suc m) n =
        ap (λ k. reported size start index k) {y = suc (m + n)} (omega arith)
        ∙ ap (λ l. listing size start index ++ l)
            (reported-append size start (suc index) m n
              ∙ ap (λ i. reported size start (suc index) m ++ reported size start i n)
                  {y = index + suc m} (omega arith))
        ∙ sym (
            append_assoc (listing size start index) (reported size start (suc index) m)
              (reported size start (index + suc m) n))

    -- Inside of a chunk.
    listing-inside :
        (size start index : ℕ) → index < size → listing size start index ≡ events (start + index)
    unfolding listing
    listing-inside size start index h = ground (arith, mod-eq_of_lt h)

    reported-inside :
        (size start index n : ℕ)
        → index + n ≤ size
        → reported size start index n ≡ span (start + index) n
    unfolding reported
    reported-inside size start index zero h = refl
    reported-inside size start index (suc n) h =
        ap (λ l. l ++ reported size start (suc index) n)
          (listing-inside size start index (omega arith))
        ∙ ap (λ l. events (start + index) ++ l)
            (reported-inside size start (suc index) n (omega arith)
              ∙ ap (λ b. span b n) {y = suc (start + index)} (omega arith))

    -- Behind a chunk, the next one has its own count.
    listing-shift :
        (size start index : ℕ)
        → 1 ≤ index
        → listing size start (size + index) ≡ listing size (start + size) index
    unfolding listing
    listing-shift size start index h =
        ap
          (λ m.
            if not (size + index == 0) && (m == 0)
            then events (start + (size + index)) ++ events (start + (size + index))
            else events (start + (size + index)))
          (add-mod_left size index)
        ∙ ap
            (λ b.
              if not (size + index == 0) && ((index % size) == 0)
              then events b ++ events b
              else events b)
            {y = start + size + index} (omega arith)
        ∙ ap
            (λ t.
              if not t && ((index % size) == 0)
              then events (start + size + index) ++ events (start + size + index)
              else events (start + size + index))
            {y = index == 0} (ground arith)

    reported-shift :
        (size start index n : ℕ)
        → 1 ≤ index
        → reported size start (size + index) n ≡ reported size (start + size) index n
    unfolding reported
    reported-shift size start index zero h = refl
    reported-shift size start index (suc n) h =
        ap (λ l. l ++ reported size start (suc (size + index)) n) (listing-shift size start index h)
        ∙ ap (λ l. listing size (start + size) index ++ l)
            (ap (λ i. reported size start i n) {y = size + suc index} (omega arith)
              ∙ reported-shift size start (suc index) n (omega arith))

    -- Where one chunk follows another.
    listing-boundary :
        (size start : ℕ)
        → 1 ≤ size
        → listing size start size ≡ events (start + size) ++ events (start + size)
    unfolding listing
    listing-boundary size start h = ground (arith, mod_self size)

    span_last : (block n : ℕ) → span block (suc n) ≡ span block n ++ events (block + n)
    span_last block n =
        ap (λ k. span block k) {x = suc n} {y = n + 1} (omega arith)
        ∙ span-append block n 1
        ∙ ap (λ l. span block n ++ l) (append_nil (events (block + n)))

    -- The first chunk of a range that needs another.
    reported-chunk :
        (size start n : ℕ)
        → 1 ≤ size
        → reported size start 0 (size + suc n)
          ≡ span start (suc size) ++ reported size (start + size) 0 (suc n)
    unfolding reported
    reported-chunk size start n h =
        ap (λ k. reported size start 0 k) {y = size + suc n} refl
        ∙ reported-append size start 0 size (suc n)
        ∙ ap (λ l. l ++ reported size start (0 + size) (suc n))
            (reported-inside size start 0 size (omega arith)
              ∙ ap (λ b. span b size) {y = start} (omega arith))
        ∙ ap (λ i. span start size ++ (listing size start i ++ reported size start (suc i) n))
            {y = size} (omega arith)
        ∙ ap (λ l. span start size ++ (l ++ reported size start (suc size) n))
            (listing-boundary size start h)
        ∙ ap (λ l. span start size ++ ((events (start + size) ++ events (start + size)) ++ l))
            (ap (λ i. reported size start i n) {y = size + 1} (omega arith)
              ∙ reported-shift size start 1 n (omega arith))
        ∙ ap (λ l. span start size ++ l)
            (append_assoc (events (start + size)) (events (start + size))
              (reported size (start + size) 1 n))
        ∙ sym (
            append_assoc (span start size) (events (start + size))
              (events (start + size) ++ reported size (start + size) 1 n))
        ∙ ap (λ l. l ++ (events (start + size) ++ reported size (start + size) 1 n))
            (sym (span_last start size))
        ∙ ap (λ b. span start (suc size) ++ (events b ++ reported size (start + size) 1 n))
            {y = start + size + 0} (omega arith)

    -- The node answers with the events of the blocks that it is asked for, up to the newest.
    module _ (fetch : ℕ → ℕ → Result (List E)) (to_block chunk_size : ℕ) (sized : 1 ≤ chunk_size)
        (answers : (a b : ℕ) → a ≤ b → b ≤ to_block → fetch a b ≡ ok (span a (suc (b - a)))) where
      more :
          (fuel start : ℕ)
          → start + chunk_size ≤ to_block
          → chunks fetch to_block chunk_size (suc fuel) start
            ≡ extend
                (ok (span start (suc chunk_size)))
                (chunks fetch to_block chunk_size fuel (start + chunk_size))
      unfolding chunks
      more fuel start h =
          ap
            (λ b. extend (fetch start (min to_block (start + chunk_size))) (
              if b
              then chunks fetch to_block chunk_size fuel (start + chunk_size)
              else some (ok [])))
            {y = true} (ground arith)
          ∙ ap (λ r. extend r (chunks fetch to_block chunk_size fuel (start + chunk_size)))
              (ap (fetch start) {y = start + chunk_size} (omega arith)
                ∙ answers start (start + chunk_size) (omega arith) h
                ∙ ap (λ n. ok (span start n)) {x = suc (start + chunk_size - start)}
                    {y = suc chunk_size} (omega arith))

      final :
          (fuel start : ℕ)
          → start ≤ to_block
          → to_block < start + chunk_size
          → chunks fetch to_block chunk_size (suc fuel) start
            ≡ some (ok (span start (suc (to_block - start))))
      unfolding chunks
      final fuel start h less =
          ap
            (λ b. extend (fetch start (min to_block (start + chunk_size))) (
              if b
              then chunks fetch to_block chunk_size fuel (start + chunk_size)
              else some (ok [])))
            {y = false} (ground arith)
          ∙ ap (λ r. extend r (some (ok [])))
              (ap (fetch start) {y = to_block} (omega arith)
                ∙ answers start to_block h (omega arith))
          ∙ ap (λ l. some (ok l)) (append_nil (span start (suc (to_block - start))))

      -- The loop ends within as many rounds as there are blocks, with the events of every block.
      pub chunks-reported :
          (fuel start : ℕ)
          → start ≤ to_block
          → to_block < start + fuel
          → chunks fetch to_block chunk_size fuel start
            ≡ some (ok (reported chunk_size start 0 (suc (to_block - start))))
      unfolding chunks
      chunks-reported zero start h enough = absurd (omega (arith, h, enough))
      chunks-reported (suc fuel) start h enough = elim (le_cases (start + chunk_size) to_block) [
        | inl le ↦
            more fuel start le
            ∙ ap (extend (ok (span start (suc chunk_size))))
                (chunks-reported fuel (start + chunk_size) le (omega arith))
            ∙ ap (λ l. some (ok l))
                (sym (reported-chunk chunk_size start (to_block - (start + chunk_size)) sized)
                  ∙ ap (λ k. reported chunk_size start 0 k) {y = suc (to_block - start)}
                      (omega arith))
        | inr less ↦
            final fuel start h less
            ∙ ap (λ l. some (ok l))
                (ap (λ b. span b (suc (to_block - start))) {y = start + 0} (omega arith)
                  ∙ sym (reported-inside chunk_size start 0 (suc (to_block - start)) (omega arith)))
      ]
