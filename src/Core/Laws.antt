-- ===== src/Core/Laws.antt =====
-- What the client relies on of its plugins and of the lock of the instance. Of its storages: each destination has entries of its own, which the calls of
-- the other destinations leave alone, and a call that returned has done what its name says.
use unikvs.Prelude.{◌≡◌, ◌≢◌, Bool, String, Option, none, some}
use unikvs.Prelude.Exec.{ok, Exec}
use unikvs.JsMap.Laws.{is_some}
use unikvs.Pipeline.{Plugins, Leaf}
use unikvs.Pipeline.Decode.{Runtime}
use unikvs.Core.{UseContext, UniKvsError}
use unikvs.Core.Outcomes.{UseOutcome}
use unikvs.Core.Backend.{Backend}
use unikvs.Core.Use.{UseScript, await_next, finish, rethrow}

-- `await next()`, of which a rejection passes through.
abbrev pub pass_through : {S F : Type 0} → UseScript S F
pass_through = await_next (λ a. elim a [ none ↦ finish | some e ↦ rethrow ])

module _ {p : Plugins} {w : Runtime p} (b : Backend w)
    (stored : Leaf p → String → w.State → Option w.Value) where
  -- A call of a leaf's storage keeps what the other leaves have stored.
  abbrev pub LeavesOthers : {A : Type 0} → (Leaf p → Exec w.State w.Failure A) → Type 0
  LeavesOthers call =
      (l other : Leaf p) (k : String) (s : w.State)
      → l.index ≢ other.index
      → stored other k (call l s).1 ≡ stored other k s

  abbrev pub KeepsAll : (w.State → w.State) → Type 0
  KeepsAll change = (l : Leaf p) (k : String) (s : w.State) → stored l k (change s) ≡ stored l k s

  pub record AreStorages : Type 0 where
    pub write_stores :
        (l : Leaf p) (k : String) (v : w.Value) (s : w.State)
        → (b.write l k v s).0 ≡ ok tt
        → stored l k (b.write l k v s).1 ≡ some v
    pub delete_removes :
        (l : Leaf p) (k : String) (s : w.State)
        → (b.delete l k s).0 ≡ ok tt
        → stored l k (b.delete l k s).1 ≡ none
    pub clear_removes :
        (l : Leaf p) (k : String) (s : w.State)
        → (b.clear l s).0 ≡ ok tt
        → stored l k (b.clear l s).1 ≡ none
    pub copy_stores :
        (l : Leaf p) (from to : String) (s : w.State)
        → (b.copy l from to s).0 ≡ ok tt
        → stored l to (b.copy l from to s).1 ≡ stored l from s
    pub move_stores :
        (l : Leaf p) (from to : String) (s : w.State)
        → (b.move l from to s).0 ≡ ok tt
        → stored l to (b.move l from to s).1 ≡ stored l from s
    pub exists_tells :
        (l : Leaf p) (k : String) (s : w.State) (a : Bool)
        → (b.exists l k s).0 ≡ ok a
        → a ≡ is_some (stored l k s)
    pub exists_keeps : (l : Leaf p) (k : String) → KeepsAll (λ s. (b.exists l k s).1)
    pub write_others : (k : String) (v : w.Value) → LeavesOthers (λ l. b.write l k v)
    pub delete_others : (k : String) → LeavesOthers (λ l. b.delete l k)
    pub clear_others : LeavesOthers b.clear
    pub copy_others : (from to : String) → LeavesOthers (λ l. b.copy l from to)
    pub move_others : (from to : String) → LeavesOthers (λ l. b.move l from to)
    pub after_use_keeps :
        (m : p.Middleware) (c : UseContext) (o : UseOutcome (UniKvsError w.Failure) w.Failure)
        → KeepsAll (λ s. (b.after_use m c o s).1)
    pub unlock_keys_keeps : (k : Option String) → KeepsAll (b.unlock_keys k)
    pub unlock_instance_keeps : KeepsAll b.unlock_instance

  -- A storage that can be read: it answers by what it holds, and the wait for its key ends.
  pub record AreReadable : Type 0 where
    pub exists_answers :
        (l : Leaf p) (k : String) (s : w.State) → b.exists l k s ≡ (ok (is_some (stored l k s)), s)
    pub read_answers :
        (l : Leaf p) (k : String) (v : w.Value) (s : w.State)
        → stored l k s ≡ some v
        → b.read l k s ≡ (ok v, s)
    pub read_lock_opens : (k : String) (s : w.State) → (b.read_lock_key k s).0 ≡ ok tt
    pub read_lock_keeps : (k : String) → KeepsAll (λ s. (b.read_lock_key k s).1)
    pub read_lock_signal :
        (k : String) (s : w.State) → w.aborted (b.read_lock_key k s).1 ≡ w.aborted s
    pub unlock_signal :
        (k : Option String) (s : w.State) → w.aborted (b.unlock_keys k s) ≡ w.aborted s

  -- Middlewares whose `use` only awaits `next()`, as the wrapper of unikvs/src/_middleware.ts does for one
  -- without a `use`, and a lock of the instance that opens, with the connection, the signal and the
  -- storages as they were.
  pub record IsServing : Type 0 where
    pub use_passes : (c : UseContext) (m : p.Middleware) → b.use_script c m ≡ pass_through
    pub lock_instance_opens : (s : w.State) → (b.lock_instance s).0 ≡ ok tt
    pub lock_instance_connection : (s : w.State) → b.is_open (b.lock_instance s).1 ≡ b.is_open s
    pub lock_instance_signal : (s : w.State) → w.aborted (b.lock_instance s).1 ≡ w.aborted s
    pub lock_instance_keeps : KeepsAll (λ s. (b.lock_instance s).1)
