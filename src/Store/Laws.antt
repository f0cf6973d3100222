-- ===== src/Store/Laws.antt =====
-- Both stores of the sources keep the laws of the interface, and MemoryStore is the plain map of its keys.
use cache_predict.Common.{
  ℕ, ◌≡◌, ◌∙◌, refl, true, none, some, if◌then◌else◌, arith, Bool-cases, inl, inr,
}
use cache_predict.Common.Int.{ℤ, pos}
use cache_predict.Common.Words.{Bytes}
use cache_predict.Common.Dict.{lookup, lookup-insert, lookup-remove, bytes_key, same_refl}
use cache_predict.Entry.{ResponseEntry}
use cache_predict.Sharded.Ops
use cache_predict.Sharded.Removal.{get-delete, close_final}
use cache_predict.Store.{
  StoreLaws, MemoryStore, is_over, expiry_after, memory_get, memory_set, memory_del, memory_close,
  memory_store, sharded_store,
}

-- What MemoryStore finds after Set: under the key the entry until its time is over, elsewhere what it found.
pub memory_get-memory_set :
    (now later : ℕ) (key other : Bytes) (e : ResponseEntry) (ttl : ℤ) (s : MemoryStore)
    → memory_get later other (memory_set now key e ttl s).2 ≡ (
        if bytes_key.same key other
        then if is_over later (expiry_after now ttl) then none else some e
        else memory_get later other s)
unfolding memory_get memory_set
memory_get-memory_set now later key other e ttl s = elim (Bool-cases (bytes_key.same key other)) [
  | inl q ↦ rw (memory_get, lookup-insert, q) refl
  | inr q ↦ rw (memory_get, lookup-insert, q) refl
]

memory_get-memory_del :
    (now : ℕ) (key : Bytes) (s : MemoryStore) → memory_get now key (memory_del key s) ≡ none
unfolding memory_get memory_del
memory_get-memory_del now key s =
    let same : bytes_key.same key key ≡ true = same_refl key in
    rw (memory_get, lookup-remove, same) refl

memory_get-memory_close :
    (now : ℕ) (key : Bytes) (s : MemoryStore) → memory_get now key (memory_close s) ≡ none
unfolding memory_get memory_close lookup
memory_get-memory_close now key s = refl

-- Set leaves the body of the caller's entry.
pub memory_set-body :
    (now : ℕ) (key : Bytes) (e : ResponseEntry) (ttl : ℤ) (s : MemoryStore)
    → (memory_set now key e ttl s).1.body ≡ e.body
unfolding memory_set
memory_set-body now key e ttl s = refl

pub memory_store-StoreLaws : StoreLaws memory_store
memory_store-StoreLaws = record {
  get-del = memory_get-memory_del;
  get-close = memory_get-memory_close;
}

module _ (sum64 : Bytes → ℕ) where
  sharded_get-del :
      (now : ℕ) (key : Bytes) (s : Ops.ShardedStore)
      → Ops.get sum64 now key (Ops.del sum64 key s) ≡ none
  unfolding Ops.get Ops.del
  sharded_get-del now key s = get-delete now (sum64 key) (sum64 key) s ∙ ground arith

  sharded_get-close :
      (now : ℕ) (key : Bytes) (s : Ops.ShardedStore) → Ops.get sum64 now key (Ops.close s) ≡ none
  unfolding Ops.get
  sharded_get-close now key s = (close_final now (sum64 key) none (pos 0) s).0

  pub sharded_store-StoreLaws : StoreLaws (sharded_store sum64)
  sharded_store-StoreLaws = record { get-del = sharded_get-del; get-close = sharded_get-close }
