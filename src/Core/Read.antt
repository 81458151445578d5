-- ===== src/Core/Read.antt =====
-- `get` without repair, and `has`: the leaves one after the other, in the order of registration.
pub mod First
pub mod Asked
use unikvs.Prelude.{
  ℕ, Bool, true, false, String, Option, none, some, List, [], ◌∷◌, ◌++◌, Equality, if◌then◌else◌,
}
use unikvs.Prelude.Exec.{Result, ok, thrown}
use unikvs.Pipeline.{Plugins, Leaf}
use unikvs.Pipeline.Contract.{Fault, other}
use unikvs.Pipeline.Compile.{PipelineGraph}
use unikvs.Pipeline.Decode as Decode
use unikvs.Pipeline.Decode.{Runtime}
use unikvs.Pipeline.LeafResolver.{NodeCache, Resolved, resolve}
use unikvs.Core.{
  UseContext, UniKvsError, PluginErrorRecord, failed, reads, get_context, has_context, not_found,
}
use unikvs.Core.Backend.{Backend}
use unikvs.Core.Operation.{Method, as_thrown, using_lock, ◌>>=◌, ◌>>◌}
use unikvs.Core.Entry.{assert_open, checked, throw_if_aborted, with_instance, use_stage}

-- What a loop over the leaves ends with: an answer from a leaf, none with the errors on the way, or a
-- throw.
pub data Search (F A : Type 0) : Type 0 where
  hit : A → Search F A
  missed : List (PluginErrorRecord F) → Search F A
  broken : F → Search F A

module _ {p : Plugins} {w : Runtime p} (b : Backend w) ⦃path : Equality (List p.Middleware)⦄ where
  abbrev pub Errors : Type 0
  Errors = List (PluginErrorRecord w.Failure)

  abbrev pub Searched : Type 0 → Type 0
  Searched A = Search w.Failure A × w.State

  -- The `catch` of a leaf: once the signal is aborted it throws again, else the next leaf is tried.
  abbrev pub after_error :
      {A : Type 0}
      → Leaf p
      → w.Failure
      → Errors
      → (Errors → w.State → Searched A)
      → w.State
      → Searched A
  after_error l x errors next s =
      if w.aborted s
      then (broken x, s)
      else next (errors ++ record { name = l.name; index = l.index; reason = x } ∷ []) s

  -- What a leaf answers: an answer, nothing, or an error.
  abbrev pub after_leaf :
      {A : Type 0}
      → Leaf p
      → Errors
      → (Errors → w.State → Searched A)
      → Result w.Failure (Option A) × w.State
      → Searched A
  after_leaf l errors next (ok (some a), s) = (hit a, s)
  after_leaf l errors next (ok none, s) = next errors s
  after_leaf l errors next (thrown x, s) = after_error l x errors next s

  -- The key of a leaf is resolved outside the `try`.
  abbrev pub after_key :
      {A : Type 0} → (String → NodeCache w → w.State → Searched A) → Resolved w → Searched A
  after_key next (ok k, cache, s) = next k cache s
  after_key next (thrown x, cache, s) = (broken x, s)

  unfoldable pub search :
      {A : Type 0}
      → (Leaf p → String → w.State → Result w.Failure (Option A) × w.State)
      → String
      → List (Leaf p)
      → NodeCache w
      → Errors
      → w.State
      → Searched A
  unfolding resolve
  search ask key [] cache errors s = (missed errors, s)
  search ask key (l ∷ ls) cache errors s =
      after_key (λ k cache' s'. after_leaf l errors (search ask key ls cache') (ask l k s'))
        (resolve w key l cache s)

  abbrev pub after_read :
      Leaf p
      → Result w.Failure w.Value × w.State
      → Result w.Failure (Option (Leaf p × w.Value)) × w.State
  after_read l (ok v, s) = (ok (some (l, v)), s)
  after_read l (thrown x, s) = (thrown x, s)

  abbrev pub read_if :
      Leaf p
      → String
      → Result w.Failure Bool × w.State
      → Result w.Failure (Option (Leaf p × w.Value)) × w.State
  read_if l k (ok true, s) = after_read l (b.read l k s)
  read_if l k (ok false, s) = (ok none, s)
  read_if l k (thrown x, s) = (thrown x, s)

  -- `exists`, and `read` if there is a value.
  unfoldable pub ask_value :
      Leaf p → String → w.State → Result w.Failure (Option (Leaf p × w.Value)) × w.State
  ask_value l k s = read_if l k (b.exists l k s)

  abbrev pub only_true : Result w.Failure Bool × w.State → Result w.Failure (Option Bool) × w.State
  only_true (ok true, s) = (ok (some true), s)
  only_true (ok false, s) = (ok none, s)
  only_true (thrown x, s) = (thrown x, s)

  unfoldable pub ask_exists : Leaf p → String → w.State → Result w.Failure (Option Bool) × w.State
  ask_exists l k s = only_true (b.exists l k s)

  -- `hit`, or the errors of all the leaves.
  abbrev pub found :
      {A : Type 0} → String → Searched A → Option (Result (UniKvsError w.Failure) A × w.State)
  found key (hit a, s) = some (ok a, s)
  found key (missed errors, s) = some (thrown (not_found key errors reads), s)
  found key (broken x, s) = some (thrown (failed (other x)), s)

  abbrev pub found_or_not :
      String → Searched Bool → Option (Result (UniKvsError w.Failure) Bool × w.State)
  found_or_not key (hit a, s) = some (ok a, s)
  found_or_not key (missed [], s) = some (ok false, s)
  found_or_not key (missed (r ∷ rs), s) = some (thrown (not_found key (r ∷ rs) reads), s)
  found_or_not key (broken x, s) = some (thrown (failed (other x)), s)

  module _ (leaves : List (Leaf p)) where
    unfoldable pub read_leaves : String → Method w.State w.Failure (Leaf p × w.Value)
    unfolding search ask_value
    read_leaves key s = found key (search ask_value key leaves [] [] s)

    unfoldable pub has_leaves : String → Method w.State w.Failure Bool
    unfolding search ask_exists
    has_leaves key s = found_or_not key (search ask_exists key leaves [] [] s)

  -- `PipelineGraph.decode`
  abbrev pub decoded : Leaf p × w.Value → Method w.State w.Failure w.Value
  decoded (l, v) s = let (r, (s', u)) = Decode.decode w l v s in some (as_thrown r, s')

  abbrev pub with_read :
      {A : Type 0} → String → Method w.State w.Failure A → Method w.State w.Failure A
  with_read key = using_lock (b.read_lock_key key) (b.unlock_keys (some key))

  module _ (g : PipelineGraph p) where
    unfoldable pub get_value : String → Method w.State w.Failure w.Value
    unfolding read_leaves
    get_value key =
        with_read key (read_leaves g.leaves key)
        >>= (λ found. decoded found >>= (λ v. checked b (b.check_output key v)))

    -- `get` with `repair: false`
    unfoldable pub get : String → Method w.State w.Failure w.Value
    unfolding assert_open with_instance use_stage throw_if_aborted get_value
    get key =
        assert_open b
        >> (checked b (b.check_key key)
            >> with_instance b
                (use_stage b g (get_context key) >> (throw_if_aborted b >> get_value key)))

    unfoldable pub has : String → Method w.State w.Failure Bool
    unfolding assert_open with_instance use_stage throw_if_aborted has_leaves
    has key =
        assert_open b
        >> (checked b (b.check_key key)
            >> with_instance b (
                use_stage b g (has_context key)
                >> (throw_if_aborted b >> with_read key (has_leaves g.leaves key))))
