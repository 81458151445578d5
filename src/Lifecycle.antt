-- ===== src/Lifecycle.antt =====
-- unikvs/src/_plugin-lifecycle.ts: the reference count that shares one plugin between its users.
-- The plugin is not this code: its state, its `isOpen` and its own `open` and `close` are
-- parameters, and a real call may throw and still change the plugin's state.
pub mod Ownership
pub mod Held
mod Tests
use unikvs.Prelude.{
  ℕ, ◌+◌, ◌-◌, Bool, true, false, not, ◌&&◌, ◌||◌, Option, none, some, List, [], ◌∷◌, ltb, nat_beq,
  if◌then◌else◌,
}
use unikvs.Prelude.Exec.{Result, ok, thrown, Exec, pure, continue}

-- `IPlugin`. Its `open?` and `close?`, which may be missing, are the parameters `open_call` and
-- `close_call` below.
pub record Plugin : Type 1 where
  pub Context : Type 0
  pub Failure : Type 0
  pub State : Type 0
  pub is_open : State → Bool

-- `#plugin`, `#references` and `#closeFailed`.
pub record Lifecycle (p : Plugin) : Type 0 where
  pub plugin : p.State
  pub references : ℕ
  pub close_failed : Bool

unfoldable pub create : (p : Plugin) → p.State → Lifecycle p
create p s = record { plugin = s; references = 0; close_failed = false }

module _ (p : Plugin) where
  abbrev pub Call : Type 0
  Call = p.Context → Exec p.State p.Failure (Unit {0})

  abbrev pub Method : Type 0
  Method = Exec (Lifecycle p) p.Failure (Unit {0})

  abbrev pub held : Lifecycle p → Bool
  held l = ltb 0 l.references

  -- A real call of the plugin, in the object that holds it.
  unfoldable pub call_real : Call → p.Context → Method
  call_real f c l = let (r, s) = f c l.plugin in (r, record l { plugin = s })

  -- `this.#references += 1; this.#closeFailed = false;`
  abbrev take_over : Lifecycle p → Lifecycle p
  take_over l = record l { references = l.references + 1; close_failed = false }

  abbrev add_reference : Lifecycle p → Lifecycle p
  add_reference l = record l { references = l.references + 1 }

  -- `await this.#plugin.open(c)` and what follows it: a throw passes by.
  unfoldable pub open_then : Call → p.Context → (Lifecycle p → Lifecycle p) → Method
  unfolding call_real
  open_then f c after l = continue (call_real f c l) (λ _ l'. (ok tt, after l'))

  -- `open`, for a plugin that has both functions.
  unfoldable pub open_counted : Call → p.Context → Method
  unfolding open_then
  open_counted f c l =
      if p.is_open l.plugin && (nat_beq l.references 0 && not l.close_failed)
      then (ok tt, l)
      else if held l || l.close_failed
      then (if p.is_open l.plugin then (ok tt, take_over l) else open_then f c take_over l)
      else open_then f c add_reference l

  -- The two ends of `#closeReal`.
  abbrev settle_close :
      Result p.Failure (Unit {0}) × Lifecycle p → Result p.Failure (Unit {0}) × Lifecycle p
  settle_close (ok a, l) = (ok a, record l { close_failed = false })
  settle_close (thrown e, l) = (thrown e, record l { close_failed = true })

  unfoldable pub close_real : Call → p.Context → Method
  unfolding call_real
  close_real f c l = settle_close (call_real f c l)

  unfoldable pub release : Lifecycle p → Lifecycle p
  release l = if held l then record l { references = l.references - 1 } else l

  -- What `close` does once a reference is given back.
  unfoldable pub close_released : Call → p.Context → Method
  unfolding close_real
  close_released f c l =
      if held l
      then (ok tt, l)
      else if not (p.is_open l.plugin)
      then (ok tt, record l { close_failed = false })
      else close_real f c l

  -- The calls that the users of one plugin make, in the order in which the lock lets them in.
  pub data Event : Type 0 where
    opens closes retries : p.Context → Event

module _ (p : Plugin) (open_call close_call : Option (Call p)) where
  unfoldable pub open_plugin : p.Context → Method p
  unfolding open_counted
  open_plugin c l = elim open_call [
    | none ↦ (ok tt, l)
    | some f ↦ elim close_call [
      | none ↦ if p.is_open l.plugin then (ok tt, l) else call_real p f c l
      | some _ ↦ open_counted p f c l
    ]
  ]

  unfoldable pub close_plugin : p.Context → Method p
  unfolding close_released release
  close_plugin c l = elim close_call [
    | none ↦ (ok tt, l)
    | some f ↦
        if nat_beq l.references 0 && not l.close_failed
        then (ok tt, l)
        else close_released p f c (release p l)
  ]

  unfoldable pub retry_close : p.Context → Method p
  unfolding close_real
  retry_close c l = elim close_call [
    | none ↦ (ok tt, l)
    | some f ↦
        if not l.close_failed || held p l
        then (ok tt, l)
        else if not (p.is_open l.plugin)
        then (ok tt, record l { close_failed = false })
        else close_real p f c l
  ]

  unfoldable pub step : Event p → Method p
  unfolding open_plugin close_plugin retry_close
  step (opens c) = open_plugin c
  step (closes c) = close_plugin c
  step (retries c) = retry_close c

  -- A throw reaches the user whose call it was; the next user's call goes on from the state left.
  unfoldable pub run : List (Event p) → Lifecycle p → Lifecycle p
  unfolding step
  run [] l = l
  run (e ∷ es) l = run es (step e l).1
