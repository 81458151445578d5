-- ===== src/Lifecycle/Ownership.antt =====
-- What holds of the count between two calls, whoever makes them, and what a failed `close` leaves.
use unikvs.Prelude.{◌<◌, ◌≡◌, Bool, true, false, Option, none, some, List, [], ◌∷◌, arith}
use unikvs.Prelude.Exec.{Result, ok, thrown}
use unikvs.Lifecycle.{
  Plugin, Lifecycle, Event, opens, closes, retries, open_plugin, close_plugin, retry_close, step,
  Call, run,
}

abbrev pub succeeded : {E A : Type 0} → Result E A → Bool
succeeded (ok a) = true
succeeded (thrown e) = false

-- What a plugin documents: `isOpen` is true once its `open` has returned.
abbrev pub IsHonest : (p : Plugin) → Option (Call p) → Type 0
IsHonest p none = Unit
IsHonest p (some f) =
    (c : p.Context) (s : p.State) → succeeded (f c s).0 ≡ true → p.is_open (f c s).1 ≡ true

-- While somebody holds a reference the plugin is open, and a failed `close` holds none.
pub record IsOwned (p : Plugin) (l : Lifecycle p) : Type 0 where
  pub open_while_held : 0 < l.references → p.is_open l.plugin ≡ true
  pub failed_alone : l.close_failed ≡ true → l.references ≡ 0

module _ (p : Plugin) where
  open_plugin-IsOwned :
      (o g : Option (Call p)) (h : IsHonest p o) (c : p.Context) (l : Lifecycle p)
      → IsOwned p l
      → IsOwned p (open_plugin p o g c l).1
  unfolding open_plugin
  open_plugin-IsOwned none g h c l v = v
  open_plugin-IsOwned (some f) g h c l v = ground (arith, h c l.plugin)

  close_plugin-IsOwned :
      (o g : Option (Call p)) (c : p.Context) (l : Lifecycle p)
      → IsOwned p l
      → IsOwned p (close_plugin p o g c l).1
  unfolding close_plugin
  close_plugin-IsOwned o g c l v = ground arith

  retry_close-IsOwned :
      (o g : Option (Call p)) (c : p.Context) (l : Lifecycle p)
      → IsOwned p l
      → IsOwned p (retry_close p o g c l).1
  unfolding retry_close
  retry_close-IsOwned o g c l v = ground arith

  step-IsOwned :
      (o g : Option (Call p)) (h : IsHonest p o) (e : Event p) (l : Lifecycle p)
      → IsOwned p l
      → IsOwned p (step p o g e l).1
  unfolding step
  step-IsOwned o g h (opens c) l v = open_plugin-IsOwned o g h c l v
  step-IsOwned o g h (closes c) l v = close_plugin-IsOwned o g c l v
  step-IsOwned o g h (retries c) l v = retry_close-IsOwned o g c l v

  -- Whatever calls the users make, and whichever real calls throw, from a state that is owned the
  -- plugin stays open while a reference is held, and a failed `close` leaves no reference. The
  -- plugin's own `open`, if it has one, is to leave it open when it returns.
  pub run-IsOwned :
      (o g : Option (Call p)) (h : IsHonest p o) (es : List (Event p)) (l : Lifecycle p)
      → IsOwned p l
      → IsOwned p (run p o g es l)
  unfolding run
  run-IsOwned o g h [] l v = v
  run-IsOwned o g h (e ∷ es) l v =
      run-IsOwned o g h es (step p o g e l).1 (step-IsOwned o g h e l v)
