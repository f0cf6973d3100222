-- ===== src/Sharded/Refinement.antt =====
-- The sharded store answers as the ideal cache does.
use cache_predict.Common.{
  ℕ, zero, suc, ◌%◌, ◌^◌, ◌<◌, ◌≡◌, refl, ap₂, none, some, List, [], ◌∷◌, All, inl, inr, get_elem?,
  replicate, Option, Option-cases,
}
use cache_predict.Common.Dict.{lookup, number_key}
use cache_predict.Sharded.InStep.{Refines, Refines-step}
use cache_predict.Sharded.Ideal.{Command, answers, Ideal, no_entries, ideal_answers, IsFit}
use cache_predict.Sharded.Ops.{
  ShardedStore, ShardedConfig, get_by_hash, new_sharded_store, configured_shards, configured_bytes,
  shard_max_size, empty_shard,
}
use cache_predict.Sharded.Removal.{new_sharded_store-IsReadyStore}
use cache_predict.Sharded.Shard.{get_record}

Refines-answers :
    (n max_size : ℕ) (cs : List Command) (s : ShardedStore) (ideal : Ideal)
    → Refines n max_size s ideal
    → All IsFit cs
    → answers cs s ≡ ideal_answers n max_size cs ideal
Refines-answers n max_size [] s ideal rel fits = refl
Refines-answers n max_size (c ∷ cs) s ideal rel (fit, fits) =
    let (same, rel') = Refines-step n max_size c s ideal rel fit in
    ap₂ ◌∷◌ same (Refines-answers n max_size cs _ _ rel' fits)

get_elem?-replicate {ℓ} :
    {A : Type ℓ} (n i : ℕ) (a b : A) → get_elem? (replicate n a) i ≡ some b → a ≡ b
get_elem?-replicate zero i a b e = absurd (cc)
get_elem?-replicate (suc n) zero a b e = cc
get_elem?-replicate (suc n) (suc i) a b e = get_elem?-replicate n i a b e

get_by_hash-empty :
    (now j n m size : ℕ)
    → get_by_hash now j (record { shards = replicate n (empty_shard size); num_shards = m }) ≡ none
unfolding get_by_hash get_record lookup
get_by_hash-empty now j n m size =
    elim (Option-cases (get_elem? (replicate n (empty_shard size)) (j % m))) [
      | inl e ↦ rw (e, get_by_hash) refl
      | inr (sh, e) ↦
          rw (e, get_by_hash) (rw (← get_elem?-replicate n (j % m) (empty_shard size) sh e) refl)
    ]

new_store-Refines :
    (cfg : Option ShardedConfig)
    → shard_max_size (configured_bytes cfg) (configured_shards cfg) < 2 ^ 31
    → Refines
        (configured_shards cfg)
        (shard_max_size (configured_bytes cfg) (configured_shards cfg))
        (new_sharded_store cfg)
        no_entries
unfolding new_sharded_store
new_store-Refines cfg small =
    let size = shard_max_size (configured_bytes cfg) (configured_shards cfg) in
    record {
      ready = new_sharded_store-IsReadyStore cfg small;
      sharded = refl;
      measured = λ i sh there.
          let is = get_elem?-replicate (configured_shards cfg) i (empty_shard size) sh there in
          rw (← is) (refl, refl);
      seen = λ now j. get_by_hash-empty now j (configured_shards cfg) (configured_shards cfg) size;
    }

-- Whatever is asked of a new store by Get, Set and Del in whatever order, where a shard has less than 2 GiB
-- and every Set fits the record format, the answers are those of the ideal cache with as many
-- shards of that size. It refuses an entry that is larger than a shard; it finds what was last taken under a
-- hash and not deleted, within its time; and it forgets it only when another entry of its shard
-- does not fit behind the bytes that were written there since the shard was last empty.
pub answers-new_sharded_store :
    (cfg : Option ShardedConfig) (cs : List Command)
    → shard_max_size (configured_bytes cfg) (configured_shards cfg) < 2 ^ 31
    → All IsFit cs
    → answers cs (new_sharded_store cfg)
      ≡ ideal_answers
          (configured_shards cfg)
          (shard_max_size (configured_bytes cfg) (configured_shards cfg))
          cs
          no_entries
answers-new_sharded_store cfg cs small fits =
    Refines-answers _ _ cs (new_sharded_store cfg) no_entries (new_store-Refines cfg small) fits
