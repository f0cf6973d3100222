-- ===== src/Tiered/Laws.antt =====
-- What the tiered store finds after Set, Del and Close, whatever store is behind it.
use cache_predict.Common.{
  ℕ, zero, suc, ◌%◌, ◌≡◌, refl, true, Option, none, some, arith, length, get_elem?,
  get_elem?-set_self, replicate,
}
use cache_predict.Common.Int.{ℤ}
use cache_predict.Common.Words.{Bytes}
use cache_predict.Entry.{ResponseEntry}
use cache_predict.Store.{Store, StoreLaws}
use cache_predict.Tiered.{
  L1Entry, TieredStore, l1_slots, is_live, probe, drop_hash, promote, ttl_nano, with_expiry,
  fall_back, tiered_get, tiered_set, tiered_del, tiered_close,
}

probe-drop_hash :
    (now h : ℕ) (item : Option (Option L1Entry)) → probe now h (some (drop_hash h item)) ≡ none
unfolding probe drop_hash
probe-drop_hash now h none = refl
probe-drop_hash now h (some none) = refl
probe-drop_hash now h (some (some item)) = ground arith

probe-live :
    (now h expire_at : ℕ) (e : ResponseEntry)
    → is_live now expire_at ≡ true
    → probe now h (some (some (record { hash = h; expire_at = expire_at; entry = e }))) ≡ some e
unfolding probe
probe-live now h expire_at e live = ground (arith, live)

probe-empty : (now h n i : ℕ) → probe now h (get_elem? (replicate n none) i) ≡ none
unfolding probe
probe-empty now h zero i = refl
probe-empty now h (suc n) zero = refl
probe-empty now h (suc n) (suc i) = probe-empty now h n i

module _ (sum64 : Bytes → ℕ) {S : Type 0} (store : Store S) where
  tiered_get-hit :
      (now later : ℕ) (key : Bytes) (t : TieredStore S) (e : ResponseEntry)
      → probe now (sum64 key) (get_elem? t.l1 (sum64 key % l1_slots)) ≡ some e
      → (tiered_get sum64 store now later key t).0 ≡ some e
  unfolding tiered_get
  tiered_get-hit now later key t e h = rw (tiered_get, h) refl

  tiered_get-miss :
      (now later : ℕ) (key : Bytes) (t : TieredStore S)
      → probe now (sum64 key) (get_elem? t.l1 (sum64 key % l1_slots)) ≡ none
      → store.get later key t.l2 ≡ none
      → (tiered_get sum64 store now later key t).0 ≡ none
  unfolding tiered_get fall_back
  tiered_get-miss now later key t h k = rw (tiered_get, h, k) refl

  -- After a Set that the second store took, Get under the same key gives the entry as Set left it, without
  -- asking the second store, until the time to live is over.
  pub tiered_get-tiered_set :
      (now later at behind : ℕ) (key : Bytes) (e : ResponseEntry) (ttl : ℤ) (t : TieredStore S)
      → length t.l1 ≡ l1_slots
      → (tiered_set sum64 store now later key (some e) ttl t).0 ≡ true
      → is_live at (ttl_nano now ttl) ≡ true
      → (tiered_get sum64 store at behind key
          (tiered_set sum64 store now later key (some e) ttl t).2).0
        ≡ (tiered_set sum64 store now later key (some e) ttl t).1
  unfolding tiered_set promote
  tiered_get-tiered_set now later at behind key e ttl t sized taken live =
      let res = store.set later key (with_expiry now ttl e) ttl t.l2 in
      let took : res.0 ≡ true = taken in
      let t' : TieredStore S = record { l1 = t.l1; l2 = res.2 } in
      rw took (
        tiered_get-hit at behind key (promote (sum64 key) res.1 (ttl_nano now ttl) t') res.1 (
          rw (get_elem?-set_self t.l1 (sum64 key % l1_slots) _ (omega (arith, sized)))
            (probe-live at (sum64 key) (ttl_nano now ttl) res.1 live)))

  -- After Del of a key Get finds nothing under it.
  tiered_get-tiered_del :
      (laws : StoreLaws store) (now later : ℕ) (key : Bytes) (t : TieredStore S)
      → length t.l1 ≡ l1_slots
      → (tiered_get sum64 store now later key (tiered_del sum64 store key t)).0 ≡ none
  unfolding tiered_del
  tiered_get-tiered_del laws now later key t sized =
      tiered_get-miss now later key (tiered_del sum64 store key t)
        (rw (get_elem?-set_self t.l1 (sum64 key % l1_slots) _ (omega (arith, sized)))
          (probe-drop_hash now (sum64 key) _))
        (laws.get-del later key t.l2)

  -- After Close Get finds nothing under any key.
  tiered_get-tiered_close :
      (laws : StoreLaws store) (now later : ℕ) (key : Bytes) (t : TieredStore S)
      → (tiered_get sum64 store now later key (tiered_close sum64 store t)).0 ≡ none
  unfolding tiered_close
  tiered_get-tiered_close laws now later key t =
      tiered_get-miss now later key (tiered_close sum64 store t)
        (probe-empty now (sum64 key) l1_slots (sum64 key % l1_slots))
        (laws.get-close later key t.l2)

  -- In a tiered store with all its slots, over any store that keeps the laws of the interface: after Del of
  -- a key Get finds nothing under it, and after Close nothing under any key.
  pub tiered_get_gone :
      (laws : StoreLaws store) (now later : ℕ) (key other : Bytes) (t : TieredStore S)
      → length t.l1 ≡ l1_slots
      → ((tiered_get sum64 store now later key (tiered_del sum64 store key t)).0 ≡ none)
        × ((tiered_get sum64 store now later other (tiered_close sum64 store t)).0 ≡ none)
  tiered_get_gone laws now later key other t sized = (
    tiered_get-tiered_del laws now later key t sized,
    tiered_get-tiered_close laws now later other t,
  )
