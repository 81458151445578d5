-- ===== src/Storage/Retry/Transfer.antt =====
-- The fallback of copy and move, over a storage that behaves as a map.
use unikvs.Prelude.{
  ◌≡◌, ◌≢◌, refl, sym, ap, subst, ◌∙◌, Bool, false, String, string_equality, Option, none, some,
  arith, ◌⊎◌, inl, inr, Bool-cases, if◌then◌else◌, ◌==◌, eq_iff,
}
use unikvs.Prelude.Exec.{Result, ok, thrown, ◌>>◌, pure}
use unikvs.Storage.Retry.{World, throw_if_aborted, transfer_fallback}

-- What the storage below documents of its entries: `read` gives the value of the key and changes
-- nothing, `write` and `delete` change their own key alone, also where they throw, and what they
-- return for is done. The clock and the signal are no entries.
pub record IsMap (w : World) (entry : w.State → String → Option w.Value) : Type 0 where
  pub read_entry :
      (k : String) (s : w.State) (x : w.Value) → (w.read k s).0 ≡ ok x → entry s k ≡ some x
  pub read_same : (k j : String) (s : w.State) → entry (w.read k s).1 j ≡ entry s j
  pub write_entry :
      (k : String) (x : w.Value) (s : w.State)
      → (w.write k x s).0 ≡ ok tt
      → entry (w.write k x s).1 k ≡ some x
  pub write_other :
      (k j : String) (x : w.Value) (s : w.State) → k ≢ j → entry (w.write k x s).1 j ≡ entry s j
  pub delete_entry :
      (k : String) (s : w.State) → (w.delete k s).0 ≡ ok tt → entry (w.delete k s).1 k ≡ none
  pub delete_other : (k j : String) (s : w.State) → k ≢ j → entry (w.delete k s).1 j ≡ entry s j

module _ (w : World) (entry : w.State → String → Option w.Value) (m : IsMap w entry)
    (key dest : String) where
  abbrev outcome : Bool → w.State → Result w.Failure (Unit {0}) × w.State
  outcome move s = transfer_fallback w key dest move s

  abbrev Kept : w.State → w.Value → Type 0
  Kept s x = (entry s key ≡ some x) ⊎ (entry s dest ≡ some x)

  -- What stands under the destination stays there while the key is deleted.
  after_write :
      (move : Bool) (s : w.State) (x : w.Value)
      → key ≢ dest
      → entry s dest ≡ some x
      → Kept ((throw_if_aborted w >> (if move then w.delete key else pure tt)) s).1 x
  after_write move s x ne h = elim (Bool-cases (w.aborted s)) [
    | inl a ↦ rw a (inr h)
    | inr a ↦ rw a (elim (Bool-cases move) [
      | inl t ↦ rw t (inr (m.delete_other key dest s ne ∙ h))
      | inr t ↦ rw t (inr h)
    ])
  ]

  abbrev stored : Bool → w.Value → w.State → Result w.Failure (Unit {0}) × w.State
  stored move x = w.write dest x >> (throw_if_aborted w >> (if move then w.delete key else pure tt))

  after_read :
      (move : Bool) (s : w.State) (x : w.Value)
      → key ≢ dest
      → entry s key ≡ some x
      → (o : Result w.Failure (Unit {0}) × w.State) → w.write dest x s ≡ o
      → Kept (stored move x s).1 x
  after_read move s x ne h (thrown e, s₁) p =
      rw p
        (inl (sym (ap (λ o. entry o.1 key) p) ∙ m.write_other dest key x s (λ q. ne (sym q)) ∙ h))
  after_read move s x ne h (ok u, s₁) p = rw p (
      after_write move s₁ x ne
        (sym (ap (λ o. entry o.1 dest) p) ∙ m.write_entry dest x s (ap (λ o. o.0) p)))

  -- Over a storage that behaves as a map, a copy or a move between two keys never loses the value:
  -- however it ends, what stood under the key is under it still, or under the destination.
  pub transfer_keeps :
      (move : Bool) (s : w.State) (x : w.Value)
      → key ≢ dest
      → entry s key ≡ some x
      → (entry (outcome move s).1 key ≡ some x) ⊎ (entry (outcome move s).1 dest ≡ some x)
  unfolding transfer_fallback
  transfer_keeps move s x ne h = go (w.read key s) refl
    where
      go : (o : Result w.Failure w.Value × w.State) → w.read key s ≡ o → Kept (outcome move s).1 x
      go (thrown e, s₁) p =
          rw (p, transfer_fallback)
            (inl (sym (ap (λ o. entry o.1 key) p) ∙ m.read_same key key s ∙ h))
      go (ok y, s₁) p =
          let kept : entry s₁ key ≡ some x =
            sym (ap (λ o. entry o.1 key) p) ∙ m.read_same key key s ∙ h in
          let same : x ≡ y = cc (m.read_entry key s y (ap (λ o. o.0) p)) in
          let apart : (key == dest) ≡ false = ground (arith, eq_iff key dest) in
          elim (Bool-cases (w.aborted s₁)) [
            | inl a ↦ rw (p, a, transfer_fallback) (inl kept)
            | inr a ↦
                rw (p, a, apart, transfer_fallback)
                  (subst (Kept (stored move y s₁).1) (sym same)
                    (after_read move s₁ y ne (kept ∙ ap some same) (w.write dest y s₁) refl))
          ]

  -- What a copy or a move that returned has left, of the two keys.
  record IsDone (move : Bool) (x : w.Value) (s : w.State) : Type 0 where
    pub arrived : entry s dest ≡ some x
    pub left : entry s key ≡ (if move then none else some x)

  written-IsDone :
      (move : Bool) (s : w.State) (x : w.Value)
      → key ≢ dest
      → entry s dest ≡ some x
      → entry s key ≡ some x
      → ((throw_if_aborted w >> (if move then w.delete key else pure tt)) s).0 ≡ ok tt
      → IsDone move x ((throw_if_aborted w >> (if move then w.delete key else pure tt)) s).1
  written-IsDone move s x ne d k = elim (Bool-cases (w.aborted s)) [
    | inl a ↦ rw a (λ q. absurd (ground (arith, q)))
    | inr a ↦ rw a (elim (Bool-cases move) [
      | inl t ↦ rw t (λ q. record {
        arrived = m.delete_other key dest s ne ∙ d;
        left = m.delete_entry key s q;
      })
      | inr t ↦ rw t (λ q. record { arrived = d; left = k })
    ])
  ]

  read-IsDone :
      (move : Bool) (s : w.State) (x : w.Value)
      → key ≢ dest
      → entry s key ≡ some x
      → (o : Result w.Failure (Unit {0}) × w.State) → w.write dest x s ≡ o
      → (stored move x s).0 ≡ ok tt
      → IsDone move x (stored move x s).1
  read-IsDone move s x ne h (thrown e, s₁) p = rw p (λ q. absurd (ground (arith, q)))
  read-IsDone move s x ne h (ok u, s₁) p = rw p (
      written-IsDone move s₁ x ne
        (sym (ap (λ o. entry o.1 dest) p) ∙ m.write_entry dest x s (ap (λ o. o.0) p))
        (sym (ap (λ o. entry o.1 key) p) ∙ m.write_other dest key x s (λ q. ne (sym q)) ∙ h))

  -- Over a storage that behaves as a map, when a copy or a move between two keys returns, the
  -- destination holds what the key held; a copy has kept the key's entry, a move has removed it.
  pub transfer_done :
      (move : Bool) (s : w.State) (x : w.Value)
      → key ≢ dest
      → entry s key ≡ some x
      → (outcome move s).0 ≡ ok tt
      → (entry (outcome move s).1 dest ≡ some x)
        × (entry (outcome move s).1 key ≡ (if move then none else some x))
  unfolding transfer_fallback
  transfer_done move s x ne h = go (w.read key s) refl
    where
      Goal : Type 0
      Goal =
          (outcome move s).0 ≡ ok tt
          → (entry (outcome move s).1 dest ≡ some x)
            × (entry (outcome move s).1 key ≡ (if move then none else some x))

      go : (o : Result w.Failure w.Value × w.State) → w.read key s ≡ o → Goal
      go (thrown e, s₁) p = rw (p, transfer_fallback) (λ q. absurd (ground (arith, q)))
      go (ok y, s₁) p =
          let kept : entry s₁ key ≡ some x =
            sym (ap (λ o. entry o.1 key) p) ∙ m.read_same key key s ∙ h in
          let same : y ≡ x = cc (m.read_entry key s y (ap (λ o. o.0) p)) in
          let apart : (key == dest) ≡ false = ground (arith, eq_iff key dest) in
          elim (Bool-cases (w.aborted s₁)) [
            | inl a ↦ rw (p, a, transfer_fallback) (λ q. absurd (ground (arith, q)))
            | inr a ↦
                rw (p, a, apart, same, transfer_fallback)
                  (λ q.
                    let done = read-IsDone move s₁ x ne kept (w.write dest x s₁) refl q in
                    (done.arrived, done.left))
          ]
