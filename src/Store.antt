-- ===== src/Store.antt =====
-- store.go: the Store interface, MemoryStore, and the sharded store behind the interface.
-- Keys are strings; a nil entry, which only callers outside the sources could set, is not modelled here.
pub mod Laws
use cache_predict.Common.{
  ℕ, ◌+◌, suc, zero, ◌≡◌, Bool, true, false, Option, none, some, [], ltb, if◌then◌else◌,
}
use cache_predict.Common.Int.{ℤ, pos, negsuc}
use cache_predict.Common.Words.{Bytes}
use cache_predict.Common.Dict.{Dict, lookup, insert, remove, bytes_key}
use cache_predict.Entry.{ResponseEntry}
use cache_predict.Sharded.Ops.{ShardedStore}
use cache_predict.Sharded.Ops

-- Each operation takes the time that it reads; Set gives back the entry as it leaves the caller's.
pub record Store (S : Type 0) : Type 0 where
  pub get : ℕ → Bytes → S → Option ResponseEntry
  pub set : ℕ → Bytes → ResponseEntry → ℤ → S → Bool × ResponseEntry × S
  pub del : Bytes → S → S
  pub close : S → S

-- What a client may rely on: what is deleted or closed is not found.
pub record StoreLaws {S : Type 0} (store : Store S) : Type 0 where
  pub get-del : (now : ℕ) (key : Bytes) (s : S) → store.get now key (store.del key s) ≡ none
  pub get-close : (now : ℕ) (key : Bytes) (s : S) → store.get now key (store.close s) ≡ none

pub record MemItem : Type 0 where
  pub entry : ResponseEntry
  pub expires_at : Option ℕ

pub record MemoryStore : Type 0 where
  pub items : Dict Bytes MemItem

-- now.After(expiresAt), which no time is where it is zero
unfoldable pub is_over : ℕ → Option ℕ → Bool
is_over now none = false
is_over now (some t) = ltb t now

unfoldable pub expiry_after : ℕ → ℤ → Option ℕ
expiry_after now (pos zero) = none
expiry_after now (pos (suc n)) = some (now + suc n)
expiry_after now (negsuc n) = none

unfoldable pub memory_get : ℕ → Bytes → MemoryStore → Option ResponseEntry
memory_get now key s = elim (lookup key s.items) [
  | none ↦ none
  | some item ↦ if is_over now item.expires_at then none else some item.entry
]

unfoldable pub memory_set :
    ℕ → Bytes → ResponseEntry → ℤ → MemoryStore → Bool × ResponseEntry × MemoryStore
memory_set now key e ttl s = (
  true,
  e,
  record { items = insert key (record { entry = e; expires_at = expiry_after now ttl }) s.items },
)

unfoldable pub memory_del : Bytes → MemoryStore → MemoryStore
memory_del key s = record { items = remove key s.items }

unfoldable pub memory_close : MemoryStore → MemoryStore
memory_close s = record { items = [] }

abbrev pub memory_store : Store MemoryStore
memory_store = record { get = memory_get; set = memory_set; del = memory_del; close = memory_close }

-- The entry that was written, where Set has one.
abbrev pub written : Option ResponseEntry → ResponseEntry → ResponseEntry
written none e = e
written (some w) e = w

module _ (sum64 : Bytes → ℕ) where
  abbrev pub sharded_set :
      ℕ → Bytes → ResponseEntry → ℤ → ShardedStore → Bool × ResponseEntry × ShardedStore
  sharded_set now key e ttl s =
      let res = Ops.set_key sum64 now key (some e) ttl s in (res.0, written res.1 e, res.2)

  abbrev pub sharded_store : Store ShardedStore
  sharded_store = record {
    get = Ops.get sum64;
    set = sharded_set;
    del = Ops.del sum64;
    close = Ops.close;
  }
