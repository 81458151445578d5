-- ===== src/Core/RoundTrip.antt =====
-- `set` and then `get`, through the middlewares and over the storages.
use unikvs.Prelude.{
  ℕ, ◌≡◌, refl, sym, ap, ◌∙◌, true, false, String, Option, some, List, ◌∷◌, Equality, arith,
}
use unikvs.Prelude.Exec.{ok}
use unikvs.Pipeline.{Plugins, Leaf, Destination}
use unikvs.Pipeline.Compile.{PipelineGraph, compile, leaf_of}
use unikvs.Pipeline.Decode.{Runtime}
use unikvs.Pipeline.Decode.Undone.{decode_undoes}
use unikvs.Pipeline.Encode.Walked.{target_of}
use unikvs.Pipeline.Plain.{IsPlain, keys_of}
use unikvs.Pipeline.Registered.{registered_from, compile-leaves}
use unikvs.Core.Backend.{Backend}
use unikvs.Core.Laws.{AreStorages, AreReadable, IsServing}
use unikvs.Core.Operation.{released}
use unikvs.Core.Read.{get}
use unikvs.Core.Read.First.{first_of, held}
use unikvs.Core.Read.Asked.{entered, freed_at, read_ending, get-first}
use unikvs.Core.Write.{set}
use unikvs.Core.Write.Stored.{set-Holds, set-valid}

module _ {p : Plugins} {w : Runtime p} (b : Backend w) (plain : IsPlain w)
    (stored : Leaf p → String → w.State → Option w.Value) where
  module _ (readable : AreReadable b stored) ⦃path : Equality (List p.Middleware)⦄ where
    -- The first leaf holds what encoding makes of a value for it: `get` gives the value back.
    get-target :
        (serving : IsServing b stored) (g : PipelineGraph p) (l : Leaf p) (ls : List (Leaf p))
        (key : String) (x : w.Value) (s : w.State)
        → g.leaves ≡ l ∷ ls
        → b.is_open s ≡ true
        → w.aborted s ≡ false
        → b.check_key key ≡ ok tt
        → stored l (target_of w plain key x l).key s ≡ some (target_of w plain key x l).encoded
        → b.check_output key x ≡ ok x
        → (s' : w.State) × (get b g key s ≡ some (ok x, s'))
    get-target serving g l ls key x s first here running valid holds taken =
        let keys = keys_of plain in
        let t = entered b keys stored readable g key serving s here running valid in
        let u = freed_at b keys stored readable g key t in
        let v = (target_of w plain key x l).encoded in
        let found : first_of (held b keys key stored readable s) g.leaves ≡ some (l, v) =
          ap (first_of (held b keys key stored readable s)) first ∙ rw (holds, first_of) refl in
        let still : w.aborted u ≡ false =
          readable.unlock_signal (some key) (b.read_lock_key key t).1
          ∙ readable.read_lock_signal key t
          ∙ serving.lock_instance_signal s
          ∙ running in
        (
          b.unlock_instance u,
          get-first b keys stored readable g key serving s here running valid
              ∙ ap (λ o. released b.unlock_instance (read_ending b keys stored readable g key t o))
                  found
              ∙ rw (decode_undoes w plain l x u still, taken) refl,
        )

    -- After `set` has returned, `get` without repair returns the value that `set` was given, as its schema made it: for
    -- compiled destinations, of which there is one at least; for plain middlewares, whose `use` passes
    -- on; for storages that can be read and have entries of their own; for any order of the writes'
    -- turns; while the client is open and the signal not aborted; and where the schema takes the value on
    -- the way out.
    pub get-set :
        (laws : AreStorages b stored) (serving : IsServing b stored) ⦃e : Equality p.Middleware⦄
        (g : PipelineGraph p) (dest : Destination p) (dests : List (Destination p))
        → compile (dest ∷ dests) ≡ some g
        → (schedule notices : List ℕ) (key : String) (value : w.Value) (s s' : w.State)
        → set b g schedule notices key value s ≡ some (ok tt, s')
        → b.is_open s' ≡ true
        → w.aborted s' ≡ false
        → ((x : w.Value) → b.check_input key value ≡ ok x → b.check_output key x ≡ ok x)
        → (x : w.Value) × (s'' : w.State) × (b.check_input key value ≡ ok x)
          × (get b g key s' ≡ some (ok x, s''))
    get-set laws serving g dest dests compiled schedule notices key value s s' h here running
          taken =
        let (x, valid, holds) =
          set-Holds b stored laws g plain (dest ∷ dests) compiled schedule notices key value s s'
            h in
        let key_valid = set-valid b g schedule notices key value s s' h in
        let (g', there, registered) = compile-leaves (dest ∷ dests) in
        let both : some g' ≡ some g = sym there ∙ compiled in
        let same : g' ≡ g = ground (arith, both) in
        let first = sym (ap (λ k. k.leaves) same) ∙ registered in
        let (s'', read) =
          get-target serving g (leaf_of 0 dest) (registered_from 1 dests) key x s' first here
            running key_valid holds.0 (taken x valid) in
        (x, s'', valid, read)
