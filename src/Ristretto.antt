-- ===== src/Ristretto.antt =====
-- store_ristretto.go: RistrettoStore over a cache of the ristretto library, which is an argument: its state is of
-- a type `C`, and it decides what it takes and keeps.
pub mod Laws
mod Runs
use cache_predict.Common.{ℕ, zero, suc, ◌+◌, ◌*◌, Bool, Option, none, some, length}
use cache_predict.Common.Int.{ℤ, pos, negsuc}
use cache_predict.Common.Words.{Bytes}
use cache_predict.Entry.{ResponseEntry}
use cache_predict.Store.{Store}

-- The fields of ristretto.Config that the source sets.
pub record CacheConfig : Type 0 where
  pub num_counters : ℕ
  pub max_cost : ℕ
  pub buffer_items : ℕ

-- A value in the cache is of any type: `nil_value`, an entry, or something else.
pub data Value : Type 0 where
  nil_value other_value : Value
  entry_value : ResponseEntry → Value

-- What the source calls of ristretto; `get` gives `none` for a key that is not found.
pub record Ristretto (C : Type 0) : Type 0 where
  pub new_cache : CacheConfig → Option C
  pub get : ℕ → Bytes → C → Option Value
  pub set_with_ttl : ℕ → Bytes → Value → ℕ → ℤ → C → Bool × C
  pub del : Bytes → C → C
  pub close : C → C

-- The capacity where none is configured: 100 MB.
unfoldable pub capacity_of : ℤ → ℕ
capacity_of (pos zero) = 100 * 1024 * 1024
capacity_of (pos (suc n)) = suc n
capacity_of (negsuc n) = 100 * 1024 * 1024

-- `val.(*ResponseEntry)`
abbrev pub as_entry : Value → Option ResponseEntry
as_entry nil_value = none
as_entry other_value = none
as_entry (entry_value e) = some e

unfoldable pub cost_of : ResponseEntry → ℕ
cost_of e = length e.body + 64

module _ {C : Type 0} (lib : Ristretto C) where
  -- NewRistrettoStore; an error is `none`.
  unfoldable pub new_ristretto_store : ℤ → Option C
  new_ristretto_store max_cost =
      lib.new_cache
        (record { num_counters = 1000000; max_cost = capacity_of max_cost; buffer_items = 64 })

  unfoldable pub ristretto_get : ℕ → Bytes → C → Option ResponseEntry
  ristretto_get now key c = elim (lib.get now key c) [ none ↦ none | some val ↦ as_entry val ]

  unfoldable pub ristretto_set : ℕ → Bytes → ResponseEntry → ℤ → C → Bool × ResponseEntry × C
  ristretto_set now key e ttl c =
      let (taken, c') = lib.set_with_ttl now key (entry_value e) (cost_of e) ttl c in (taken, e, c')

  abbrev pub ristretto_store : Store C
  ristretto_store = record {
    get = ristretto_get;
    set = ristretto_set;
    del = lib.del;
    close = lib.close;
  }
