-- ===== src/Tiered.antt =====
-- store_tier.go: the direct-mapped slots in front of a store, for any store of the interface.
-- A load, a store or a compare-and-swap of a slot is one step; interleavings of two operations on a
-- slot are not modelled. An entry is shared with the second store, so that a slot gets it as that store
-- leaves it.
pub mod Laws
mod Runs
use cache_predict.Common.{
  ℕ, ◌+◌, ◌%◌, suc, zero, Bool, true, false, ◌&&◌, ◌||◌, Option, none, some, List, [], ◌∷◌, ◌==◌,
  leb, if◌then◌else◌, get_elem?, set, replicate,
}
use cache_predict.Common.Int.{ℤ, pos, negsuc}
use cache_predict.Common.Words.{Bytes}
use cache_predict.Entry.{ResponseEntry}
use cache_predict.Store.{Store}

abbrev pub l1_slots : ℕ
l1_slots = 256

pub record L1Entry : Type 0 where
  pub hash : ℕ
  pub expire_at : ℕ
  pub entry : ResponseEntry

-- An empty slot is `none`.
pub record TieredStore (S : Type 0) : Type 0 where
  pub l1 : List (Option L1Entry)
  pub l2 : S

-- NewTieredStore
unfoldable pub new_tiered_store : {S : Type 0} → S → TieredStore S
new_tiered_store l2 = record { l1 = replicate l1_slots none; l2 = l2 }

-- ExpiresAt as a UnixNano; zero stands for no expiry.
abbrev pub entry_nano : Option ℕ → ℕ
entry_nano none = 0
entry_nano (some t) = t

-- `expireAt == 0 || now <= expireAt`
unfoldable pub is_live : ℕ → ℕ → Bool
is_live now expire_at = (expire_at == 0) || leb now expire_at

-- The probe of a slot; a slot out of range, which the mask excludes, is empty.
unfoldable pub probe : ℕ → ℕ → Option (Option L1Entry) → Option ResponseEntry
probe now h none = none
probe now h (some none) = none
probe now h (some (some item)) =
    if (item.hash == h) && is_live now item.expire_at then some item.entry else none

-- The slot of Del: it is emptied if it holds the hash.
unfoldable pub drop_hash : ℕ → Option (Option L1Entry) → Option L1Entry
drop_hash h none = none
drop_hash h (some none) = none
drop_hash h (some (some item)) = if item.hash == h then none else some item

unfoldable pub promote : {S : Type 0} → ℕ → ResponseEntry → ℕ → TieredStore S → TieredStore S
promote h e expire_at t = record {
  l1 = set t.l1 (h % l1_slots) (some (record { hash = h; expire_at = expire_at; entry = e }));
  l2 = t.l2;
}

-- Set's expiry, and the entry with it.
unfoldable pub ttl_nano : ℕ → ℤ → ℕ
ttl_nano now (pos zero) = 0
ttl_nano now (pos (suc n)) = now + suc n
ttl_nano now (negsuc n) = 0

unfoldable pub with_expiry : ℕ → ℤ → ResponseEntry → ResponseEntry
with_expiry now (pos zero) e = e
with_expiry now (pos (suc n)) e = record e { expires_at = some (now + suc n) }
with_expiry now (negsuc n) e = e

module _ (sum64 : Bytes → ℕ) {S : Type 0} (store : Store S) where
  -- The part of Get behind the probe: `e` is what the second store found.
  unfoldable pub fall_back :
      ℕ → ℕ → Option ResponseEntry → TieredStore S → Option ResponseEntry × TieredStore S
  fall_back now h none t = (none, t)
  fall_back now h (some e) t =
      if is_live now (entry_nano e.expires_at)
      then (some e, promote h e (entry_nano e.expires_at) t)
      else (none, t)

  -- Get: `now` is the time of the probe, `later` that of the second store and of the test behind it.
  unfoldable pub tiered_get : ℕ → ℕ → Bytes → TieredStore S → Option ResponseEntry × TieredStore S
  tiered_get now later key t =
      elim (probe now (sum64 key) (get_elem? t.l1 (sum64 key % l1_slots))) [
        | some e ↦ (some e, t)
        | none ↦ fall_back later (sum64 key) (store.get later key t.l2) t
      ]

  -- Set: `now` is the time that the expiry is counted from, `later` that of the second store's Set. The
  -- result has the entry as it is after the call.
  unfoldable pub tiered_set :
      ℕ
      → ℕ
      → Bytes
      → Option ResponseEntry
      → ℤ
      → TieredStore S
      → Bool × Option ResponseEntry × TieredStore S
  tiered_set now later key none ttl t = (false, none, t)
  tiered_set now later key (some e) ttl t =
      let res = store.set later key (with_expiry now ttl e) ttl t.l2 in
      let t' = record t { l2 = res.2 } in
      (res.0, some (res.1), if res.0 then promote (sum64 key) res.1 (ttl_nano now ttl) t' else t')

  -- Del
  unfoldable pub tiered_del : Bytes → TieredStore S → TieredStore S
  tiered_del key t =
      let slot = sum64 key % l1_slots in
      record {
        l1 = set t.l1 slot (drop_hash (sum64 key) (get_elem? t.l1 slot));
        l2 = store.del key t.l2;
      }

  -- Close
  unfoldable pub tiered_close : TieredStore S → TieredStore S
  tiered_close t = record { l1 = replicate l1_slots none; l2 = store.close t.l2 }
