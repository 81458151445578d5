-- ===== src/Storage/Bytes.antt =====
-- The loop that joins the chunks of a writable stream, in packages/memory/src/memory.ts and
-- packages/lru-cache/src/lru-cache.ts: one zeroed array of the total length, filled chunk by chunk.
use unikvs.Prelude.{
  ℕ, zero, suc, ◌+◌, ◌≡◌, refl, ap, sym, ◌∙◌, List, [], ◌∷◌, ◌++◌, length, flatten, arith,
  append_assoc, length-append,
}

-- `chunks.reduce((sum, chunk) => sum + chunk.byteLength, 0)`
unfoldable pub total_length : List (List ℕ) → ℕ
total_length [] = 0
total_length (c ∷ cs) = length c + total_length cs

abbrev pub zeros : ℕ → List ℕ
zeros zero = []
zeros (suc n) = 0 ∷ zeros n

-- `merged.set(chunk, offset)`
unfoldable pub set_at : List ℕ → List ℕ → ℕ → List ℕ
set_at merged [] offset = merged
set_at [] (b ∷ chunk) offset = []
set_at (a ∷ merged) (b ∷ chunk) zero = b ∷ set_at merged chunk zero
set_at (a ∷ merged) (b ∷ chunk) (suc offset) = a ∷ set_at merged (b ∷ chunk) offset

unfoldable pub fill : List (List ℕ) → ℕ → List ℕ → List ℕ
unfolding set_at
fill [] offset merged = merged
fill (c ∷ cs) offset merged = fill cs (offset + length c) (set_at merged c offset)

unfoldable pub merge : List (List ℕ) → List ℕ
unfolding fill total_length
merge chunks = fill chunks 0 (zeros (total_length chunks))

set_at_here : (c : List ℕ) (n : ℕ) → set_at (zeros (length c + n)) c 0 ≡ c ++ zeros n
unfolding set_at
set_at_here [] n = let h : zeros (0 + n) ≡ zeros n = ap zeros (omega arith) in h
set_at_here (b ∷ c) n =
    let h : suc (length c) + n ≡ suc (length c + n) = omega arith in
    rw h (ap (λ r. b ∷ r) (set_at_here c n))

set_at_after :
    (done c rest : List ℕ) → set_at (done ++ rest) c (length done) ≡ done ++ set_at rest c 0
unfolding set_at
set_at_after [] c rest = refl
set_at_after (a ∷ done) [] rest = refl
set_at_after (a ∷ done) (b ∷ c) rest = ap (λ r. a ∷ r) (set_at_after done (b ∷ c) rest)

fill_after :
    (cs : List (List ℕ)) (done : List ℕ)
    → fill cs (length done) (done ++ zeros (total_length cs)) ≡ done ++ flatten cs
unfolding fill total_length
fill_after [] done = refl
fill_after (c ∷ cs) done =
    let written : set_at (done ++ zeros (length c + total_length cs)) c (length done)
        ≡ (done ++ c) ++ zeros (total_length cs) =
      set_at_after done c (zeros (length c + total_length cs))
      ∙ ap (λ r. done ++ r) (set_at_here c (total_length cs))
      ∙ sym (append_assoc done c (zeros (total_length cs))) in
    ap (fill cs (length done + length c)) written
    ∙ ap (λ n. fill cs n ((done ++ c) ++ zeros (total_length cs))) (sym (length-append done c))
    ∙ fill_after cs (done ++ c)
    ∙ append_assoc done c (flatten cs)

-- The joined array holds the chunks one after the other, whatever their lengths.
pub merge-eq-flatten : (chunks : List (List ℕ)) → merge chunks ≡ flatten chunks
unfolding merge
merge-eq-flatten chunks = fill_after chunks []
