-- ===== src/Storage/LruCache/Recency.antt =====
-- What a write leaves to read, and in which order.
use unikvs.Prelude.{
  ℕ, zero, suc, ◌≡◌, ◌≢◌, refl, sym, subst, ◌∙◌, Bool, true, false, String, string_equality, none,
  some, [], ◌∷◌, arith,
}
use unikvs.Prelude.Exec.{ok, thrown}
use unikvs.JsMap.{JsMap, get, delete}
use unikvs.Storage.{Values, Context}
use unikvs.Storage.LruCache.State.{LruCache, SizeOf}
use unikvs.Storage.LruCache.{commit, write}
use unikvs.Storage.LruCache.Written.{IsValid, newest}
use unikvs.Storage.LruCache.Committed.{Committed}
use unikvs.Storage.LruCache.Calls.{ok-injective}
use unikvs.Storage.LruCache.Outcomes.{Outcome, write_cases}
use unikvs.Storage.LruCache.Eviction.{drop}
use unikvs.JsMap.Order.{get-append_last, get-delete_self}

get-drop_absent :
    {V : Type 0} (k : String) (j : ℕ) (m : JsMap String V)
    → get k m ≡ none
    → get k (drop j m) ≡ none
unfolding get
get-drop_absent k zero m h = h
get-drop_absent k (suc j) [] h = refl
get-drop_absent k (suc j) ((i, w) ∷ m) h = get-drop_absent k j m (ground arith)

module _ {v : Values} where
  abbrev returned : {A : Type 0} → Outcome v A → Bool
  returned (ok a, r) = true
  returned (thrown e, r) = false

  -- The written entry is the newest, the others keep their order, and only the oldest of them go.
  abbrev pub Newest : String → v.Value → LruCache v → LruCache v → Type 0
  Newest key stored l r =
      ((j : ℕ) × (r.entries ≡ newest key stored (drop j (delete key l.entries))))
      × (get key r.entries ≡ some stored)

  Committed-Newest :
      (key : String) (stored : v.Value) (l r : LruCache v)
      → l.max_entries ≢ some 0
      → Committed key stored l r
      → Newest key stored l r
  Committed-Newest key stored l r nonzero done =
      let (j, kept) = done.kept nonzero in
      (
        (j, kept),
        rw kept (
            get-append_last key stored (drop j (delete key l.entries))
              (get-drop_absent key j (delete key l.entries) (get-delete_self key l.entries))),
      )

module _ (v : Values) (size_of : SizeOf v) (c : Context) (value stored : v.Value) (size : ℕ)
    (l : LruCache v) where
  write_returns :
      c.aborted ≡ false
      → l.opened ≡ true
      → v.clone value ≡ ok stored
      → size_of stored c.key ≡ ok (some size)
      → returned (write v size_of c value l) ≡ true
  unfolding write commit
  write_returns going opened cloned sized = ground arith

  -- A write to a valid cache that is open, whose signal is not aborted, whose value can be cloned and
  -- has a size, and whose `maxEntries` is not 0, returns: the clone is the newest entry and is read
  -- back, the other entries keep their order, and only the oldest of them are gone.
  pub write-Newest :
      IsValid l
      → l.max_entries ≢ some 0
      → c.aborted ≡ false
      → l.opened ≡ true
      → v.clone value ≡ ok stored
      → size_of stored c.key ≡ ok (some size)
      → (r : LruCache v) × (write v size_of c value l ≡ (ok tt, r)) × Newest c.key stored l r
  write-Newest h nonzero going opened cloned sized =
      write_cases v size_of l h
        (λ o. returned o ≡ true → (r : LruCache v) × (o ≡ (ok tt, r)) × Newest c.key stored l r) c
        value (λ e bad. absurd (false-ne-true bad))
        (λ x r m done good. (
          r,
          refl,
          Committed-Newest c.key stored l r nonzero
              (subst (λ y. Committed c.key y l r) (ok-injective (sym m ∙ cloned)) done),
        ))
        (write_returns going opened cloned sized)
    where
      false-ne-true : false ≡ true → ⊥
      false-ne-true e = cc
