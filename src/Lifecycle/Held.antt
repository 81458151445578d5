-- ===== src/Lifecycle/Held.antt =====
-- While somebody holds a reference nobody reaches the plugin: the first `open` and the last `close`
-- are the only real calls.
use unikvs.Prelude.{ℕ, zero, suc, false, Option, none, some, List, [], ◌∷◌}
use unikvs.Lifecycle.{Plugin, Lifecycle, Event, opens, closes, retries}

-- The number of users after a row of calls, `none` as soon as the last of them has left.
abbrev pub users : {p : Plugin} → ℕ → List (Event p) → Option ℕ
users n [] = some n
users n (opens c ∷ es) = users (suc n) es
users zero (closes c ∷ es) = none
users (suc zero) (closes c ∷ es) = none
users (suc (suc n)) (closes c ∷ es) = users (suc n) es
users n (retries c ∷ es) = users n es

abbrev pub with_users : {p : Plugin} → p.State → ℕ → Lifecycle p
with_users s n = record { plugin = s; references = n; close_failed = false }
