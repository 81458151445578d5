-- ===== src/Middleware/Hex/Carry.antt =====
-- The text that is decoded at once, and the digit that waits for the next chunk.
use unikvs.Prelude.{
  ℕ, suc, ◌+◌, ◌*◌, ◌≤◌, true, false, Option, none, some, List, [], ◌∷◌, ◌++◌, length,
  length-append, ◌≡◌, refl, sym, ap, arith, Bool-cases, inl, inr, flatten, append-nil,
  if◌then◌else◌, nat_beq,
}
use mathlib.Core.Option
use unikvs.Prelude.Maybe.{◌>>=◌}
use unikvs.Middleware.Hex.{nibble, hex_to_bytes, is_odd, but_last, last_only, enqueue}

-- Decoding two digits and a rest that is decoded in two parts.
regroup :
    (p q : Option ℕ) (a b : Option (List ℕ))
    → (do
      high ← p
      low ← q
      output ← (do x ← a; y ← b; some (x ++ y))
      some ((high * 16 + low) ∷ output))
      ≡ (do
        x ← (do high ← p; low ← q; output ← a; some ((high * 16 + low) ∷ output))
        y ← b
        some (x ++ y))
regroup none q a b = refl
regroup (some h) none a b = refl
regroup (some h) (some l) none b = refl
regroup (some h) (some l) (some x) none = refl
regroup (some h) (some l) (some x) (some y) = refl

join_id : (o : Option (List ℕ)) → (do x ← some []; y ← o; some (x ++ y)) ≡ o
join_id none = refl
join_id (some y) = refl

no_result : (o : Option (List ℕ)) → (do x ← o; y ← none; some (x ++ y)) ≡ none
no_result none = refl
no_result (some x) = refl

hex_to_bytes-append :
    (a b : List ℕ)
    → is_odd a ≡ false
    → hex_to_bytes (a ++ b) ≡ (do x ← hex_to_bytes a; y ← hex_to_bytes b; some (x ++ y))
unfolding hex_to_bytes
hex_to_bytes-append [] b h = sym (join_id (hex_to_bytes b))
hex_to_bytes-append (x ∷ []) b h = absurd (ground arith)
hex_to_bytes-append (x ∷ y ∷ a) b h =
    let even : is_odd a ≡ false = ground arith in
    rw (hex_to_bytes-append a b even)
      (regroup (nibble x) (nibble y) (hex_to_bytes a) (hex_to_bytes b))

-- What `decode` does to the text.
abbrev pub decode_text : List ℕ → Option (List ℕ)
decode_text text = if is_odd text then none else hex_to_bytes text

pub decode_text-append :
    (a b : List ℕ)
    → is_odd a ≡ false
    → decode_text (a ++ b) ≡ (do x ← hex_to_bytes a; y ← decode_text b; some (x ++ y))
decode_text-append a b h = elim (Bool-cases (is_odd b)) [
  | inl odd ↦
      let odd' : is_odd (a ++ b) ≡ true = ground (arith, length-append a b) in
      rw (odd, odd') (sym (no_result (hex_to_bytes a)))
  | inr even ↦
      let even' : is_odd (a ++ b) ≡ false = ground (arith, length-append a b) in
      rw (even, even') (hex_to_bytes-append a b h)
]

but_last-last_only : (t : List ℕ) → but_last t ++ last_only t ≡ t
unfolding but_last last_only
but_last-last_only [] = refl
but_last-last_only (x ∷ []) = refl
but_last-last_only (x ∷ y ∷ t) = ap (λ r. x ∷ r) (but_last-last_only (y ∷ t))

length-last_only : (t : List ℕ) → is_odd t ≡ true → length (last_only t) ≡ 1
unfolding last_only
length-last_only [] h = ground arith
length-last_only (x ∷ []) h = refl
length-last_only (x ∷ y ∷ []) h = refl
length-last_only (x ∷ y ∷ z ∷ t) h = length-last_only (z ∷ t) (ground arith)

unwrap : (o : Option (List ℕ)) → Option.map flatten (do x ← o; some (x ∷ [])) ≡ o
unwrap none = refl
unwrap (some x) = ap some (append-nil x)

pub enqueue-flatten : (t : List ℕ) → Option.map flatten (enqueue t) ≡ hex_to_bytes t
unfolding enqueue hex_to_bytes
enqueue-flatten [] = refl
enqueue-flatten (x ∷ t) =
    let full : nat_beq (suc (length t)) 0 ≡ false = ground arith in
    rw (full, enqueue) (unwrap (hex_to_bytes (x ∷ t)))

-- The part of a text that is decoded at once, and the carry.
abbrev pub whole_of : List ℕ → List ℕ
whole_of t = if is_odd t then but_last t else t

abbrev pub carry_of : List ℕ → List ℕ
carry_of t = if is_odd t then last_only t else []

pub carry_lem :
    (t : List ℕ)
    → (whole_of t ++ carry_of t ≡ t) × (is_odd (whole_of t) ≡ false) × (length (carry_of t) ≤ 1)
carry_lem t = elim (Bool-cases (is_odd t)) [
  | inr even ↦ rw even (append-nil t, even, omega arith)
  | inl odd ↦
      let joined = but_last-last_only t in
      let one = length-last_only t odd in
      let len : length (but_last t) + 1 ≡ length t =
        omega (arith, length-append (but_last t) (last_only t), ap length joined, one) in
      let even : is_odd (but_last t) ≡ false = ground arith in
      rw odd (joined, even, omega (arith, one))
]
