-- ===== src/Core/Tests/World.antt =====
-- Two destinations behind middlewares that add a number to the value; the world is what each leaf holds
-- under each key. A storage whose index is `broken` throws on every write.
use unikvs.Prelude.{
  ℕ, ◌+◌, ◌-◌, ◌≡◌, ◌≢◌, refl, ◌∙◌, Bool, true, false, nat_beq, nat_beq_iff, nat_equality,
  string_equality, ◌==◌, beq_refl, String, Option, none, some, List, [], ◌∷◌, arith, if◌then◌else◌,
}
use unikvs.Prelude.Exec.{Result, ok, thrown}
use unikvs.JsMap.Laws.{is_some}
use unikvs.Pipeline.{Plugins, Leaf, Destination, leaf_entry, node_entry, no_entries, entry}
use unikvs.Prelude.Sorting.{sort_by}
use unikvs.JsMap
use unikvs.Pipeline.Compile.{PipelineGraph, compile}
use unikvs.Pipeline.Contract.Convey.{convey}
use unikvs.Pipeline.Decode.{Runtime}
use unikvs.Pipeline.Plain.{IsPlain}
use unikvs.Core.Backend.{Backend}
use unikvs.Core.Laws.{AreStorages, AreReadable, IsServing, pass_through}

abbrev pub named : Plugins
named = record {
  Middleware = ℕ;
  Storage = String;
  middleware_name = λ m. "Add";
  storage_name = λ s. s;
}

abbrev pub World : Type 0
World = ℕ → String → Option ℕ

abbrev pub adding : Runtime named
adding = record {
  State = World;
  Value = ℕ;
  Failure = String;
  aborted = λ s. false;
  reason = λ s. "aborted";
  encode = λ m x. convey (x + m);
  decode = λ m x. convey (x - m);
  map_key = λ m k s. (ok k, s);
}

abbrev pub adding-IsPlain : IsPlain adding
adding-IsPlain = record {
  encoded_by = λ m x. x + m;
  decoded_by = λ m x. x - m;
  key_by = λ m k. k;
  encode_conveys = λ m x. refl;
  decode_conveys = λ m x. refl;
  map_key_maps = λ m k s. refl;
  decodes = λ m x. omega arith;
}

abbrev pub put : ℕ → String → Option ℕ → World → World
put i k o s j m = if nat_beq j i then (if m == k then o else s j m) else s j m

abbrev pub drop_all : ℕ → World → World
drop_all i s j m = if nat_beq j i then none else s j m

abbrev pub stored : Leaf named → String → World → Option ℕ
stored l k s = s l.index k

module _ (broken : ℕ → Bool) where
  abbrev pub try_write : Bool → World → World → Result String (Unit {0}) × World
  try_write true s t = (thrown "broken", s)
  try_write false s t = (ok tt, t)

  abbrev pub memory : Backend adding
  memory = record {
    is_open = λ s. true;
    exists = λ l k s. (ok (is_some (s l.index k)), s);
    read = λ l k s. (elim (s l.index k) [ some v ↦ ok v | none ↦ thrown "missing" ], s);
    write = λ l k v s. try_write (broken l.index) s (put l.index k (some v) s);
    delete = λ l k s. (ok tt, put l.index k none s);
    clear = λ l s. (ok tt, drop_all l.index s);
    copy = λ l from to s. (ok tt, put l.index to (s l.index from) s);
    move = λ l from to s. (ok tt, put l.index to (s l.index from) (put l.index from none s));
    on_other_write_error = λ l k errors s. (ok tt, s);
    use_script = λ c m. pass_through;
    after_use = λ m c o s. (ok tt, s);
    check_key = λ k. ok tt;
    check_input = λ k v. ok v;
    check_output = λ k v. ok v;
    lock_instance = λ s. (ok tt, s);
    unlock_instance = λ s. s;
    lock_keys = λ k s. (ok tt, s);
    read_lock_key = λ k s. (ok tt, s);
    unlock_keys = λ k s. s;
    comes_before = λ k m. false;
  }

pub put-here : (i : ℕ) (k : String) (o : Option ℕ) (s : World) → put i k o s i k ≡ o
put-here i k o s = ground (arith, nat_beq_iff i i, beq_refl k)

pub put-there :
    (i j : ℕ) (k m : String) (o : Option ℕ) (s : World) → i ≢ j → put i k o s j m ≡ s j m
put-there i j k m o s h = ground (arith, nat_beq_iff j i, h)

pub drop_all-here : (i : ℕ) (k : String) (s : World) → drop_all i s i k ≡ none
drop_all-here i k s = ground (arith, nat_beq_iff i i)

pub drop_all-there : (i j : ℕ) (m : String) (s : World) → i ≢ j → drop_all i s j m ≡ s j m
drop_all-there i j m s h = ground (arith, nat_beq_iff j i, h)

module _ (broken : ℕ → Bool) where
  pub write_stores :
      (l : Leaf named) (k : String) (v : ℕ) (s : World) (c : Bool)
      → (try_write broken c s (put l.index k (some v) s)).0 ≡ ok tt
      → stored l k (try_write broken c s (put l.index k (some v) s)).1 ≡ some v
  write_stores l k v s true h = absurd (ground (arith, h))
  write_stores l k v s false h = put-here l.index k (some v) s

  pub write_others :
      (l other : Leaf named) (k m : String) (v : ℕ) (s : World) (c : Bool)
      → l.index ≢ other.index
      → stored other m (try_write broken c s (put l.index k (some v) s)).1 ≡ stored other m s
  write_others l other k m v s true h = refl
  write_others l other k m v s false h = put-there l.index other.index k m (some v) s h

  pub told :
      (l : Leaf named) (k : String) (s : World) (a : Bool)
      → ((memory broken).exists l k s).0 ≡ ok a
      → a ≡ is_some (stored l k s)
  told l k s a h = ground (arith, h)

  abbrev pub memory-AreStorages : AreStorages (memory broken) stored
  memory-AreStorages = record {
    write_stores = λ l k v s h. write_stores l k v s (broken l.index) h;
    delete_removes = λ l k s h. put-here l.index k none s;
    clear_removes = λ l k s h. drop_all-here l.index k s;
    copy_stores = λ l from to s h. put-here l.index to (s l.index from) s;
    move_stores = λ l from to s h. put-here l.index to (s l.index from) (put l.index from none s);
    exists_tells = told;
    exists_keeps = λ l k m j s. refl;
    write_others = λ k v l other m s h. write_others l other k m v s (broken l.index) h;
    delete_others = λ k l other m s h. put-there l.index other.index k m none s h;
    clear_others = λ l other m s h. drop_all-there l.index other.index m s h;
    copy_others = λ from to l other m s h. put-there l.index other.index to m (s l.index from) s h;
    move_others = λ from to l other m s h.
        put-there l.index other.index to m (s l.index from) (put l.index from none s) h
        ∙ put-there l.index other.index from m none s h;
    after_use_keeps = λ m c o l k s. refl;
    unlock_keys_keeps = λ k l m s. refl;
    unlock_instance_keeps = λ l m s. refl;
  }

  pub read_stored :
      (l : Leaf named) (k : String) (v : ℕ) (s : World)
      → stored l k s ≡ some v
      → (memory broken).read l k s ≡ (ok v, s)
  read_stored l k v s h = ground (arith, h)

  abbrev pub memory-AreReadable : AreReadable (memory broken) stored
  memory-AreReadable = record {
    exists_answers = λ l k s. refl;
    read_answers = read_stored;
    read_lock_opens = λ k s. refl;
    read_lock_keeps = λ k l m s. refl;
    read_lock_signal = λ k s. refl;
    unlock_signal = λ k s. refl;
  }

  abbrev pub memory-IsServing : IsServing (memory broken) stored
  memory-IsServing = record {
    use_passes = λ c m. refl;
    lock_instance_opens = λ s. refl;
    lock_instance_connection = λ s. refl;
    lock_instance_signal = λ s. refl;
    lock_instance_keeps = λ l k s. refl;
  }

abbrev pub two : List (Destination named)
two =
    record { storage = "a"; middlewares = 1 ∷ [] } ∷ record { storage = "b"; middlewares = [] } ∷ []

abbrev pub leaf_a : Leaf named
leaf_a = record { storage = "a"; index = 0; name = "a"; can_repair = false; path = 1 ∷ [] }

abbrev pub leaf_b : Leaf named
leaf_b = record { storage = "b"; index = 1; name = "b"; can_repair = false; path = [] }

abbrev pub graph : PipelineGraph named
graph = record {
  leaves = leaf_a ∷ leaf_b ∷ [];
  entries =
      entry (node_entry 1 (entry (leaf_entry leaf_a) no_entries))
        (entry (leaf_entry leaf_b) no_entries);
  middlewares = 1 ∷ [];
  leaf_indexes = (1, 0 ∷ []) ∷ [];
}

pub compile-graph : compile ⦃e = nat_equality⦄ two ≡ some graph
unfolding compile sort_by JsMap.set JsMap.get
compile-graph = refl

abbrev pub empty : World
empty i k = none

abbrev pub none_broken : ℕ → Bool
none_broken i = false

abbrev pub second_broken : ℕ → Bool
second_broken i = nat_beq i 1
