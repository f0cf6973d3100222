-- ===== src/Sharded/Ideal.antt =====
-- An ideal cache to compare the sharded store with: it keeps whole entries under their hashes, and of each
-- shard only how many bytes of it are used.
use cache_predict.Common.{
  ℕ, ◌+◌, ◌%◌, ◌^◌, ◌<◌, Bool, not, ◌&&◌, Option, none, some, List, [], ◌∷◌, ltb, ◌==◌,
  if◌then◌else◌,
}
use cache_predict.Common.Int.{ℤ}
use cache_predict.Entry.{ResponseEntry}
use cache_predict.Sharded.Arena.{FitsRecord}
use cache_predict.Sharded.Codec.RoundTrip.{IsEncodable}
use cache_predict.Sharded.Ops.{ShardedStore, get_by_hash, set_by_hash, delete_by_hash}
use cache_predict.Sharded.Shard.{expire_nano, prepare, total_entry_len, is_expired}
use cache_predict.Sharded.Sizes.{used_after}
use cache_predict.Sharded.Writes.{restored}

-- The calls of a store by hash, with the times that they read.
pub data Command : Type 0 where
  sets : (now h : ℕ) (e : ResponseEntry) (ttl : ℤ) → Command
  gets : (now h : ℕ) → Command
  deletes : (h : ℕ) → Command

pub data Answer : Type 0 where
  taken : Bool → Answer
  found : Option ResponseEntry → Answer
  deleted : Answer

abbrev pub step : Command → ShardedStore → Answer × ShardedStore
step (sets now h e ttl) s =
    (taken (set_by_hash now h (some e) ttl s).0, (set_by_hash now h (some e) ttl s).2)
step (gets now h) s = (found (get_by_hash now h s), s)
step (deletes h) s = (deleted, delete_by_hash h s)

abbrev pub answers : List Command → ShardedStore → List Answer
answers [] s = []
answers (c ∷ cs) s = (step c s).0 ∷ answers cs (step c s).1

-- An entry as Set was given it, and its expiry in nanoseconds (0 is none).
pub record Written : Type 0 where
  pub expire : ℕ
  pub entry : ResponseEntry

pub record Ideal : Type 0 where
  pub entries : ℕ → Option Written
  pub used : ℕ → ℕ

abbrev pub no_entries : Ideal
no_entries = record { entries = λ _. none; used = λ _. 0 }

abbrev pub read_written : ℕ → Option Written → Option ResponseEntry
read_written now none = none
read_written now (some w) =
    if is_expired now w.expire then none else some (restored now w.expire w.entry)

abbrev pub written_at : ℕ → ResponseEntry → ℤ → Written
written_at now e ttl = record { expire = expire_nano now ttl; entry = prepare now e ttl }

-- An entry that is larger than a shard is refused. One that does not fit behind the others of its shard
-- takes their place.
module _ (num_shards max_size : ℕ) where
  abbrev pub is_refused : ResponseEntry → Bool
  is_refused e = ltb max_size (total_entry_len e)

  abbrev pub evicts : ℕ → ℕ → ResponseEntry → Ideal → Bool
  evicts h j e ideal =
      (h % num_shards == j % num_shards)
      && ltb max_size (ideal.used (h % num_shards) + total_entry_len e)

  abbrev pub ideal_set : ℕ → Written → Ideal → Ideal
  ideal_set h w ideal = record {
    entries =
        λ j. if h == j then some w else if evicts h j w.entry ideal then none else ideal.entries j;
    used = λ i.
        if h % num_shards == i
        then used_after max_size (ideal.used (h % num_shards)) (total_entry_len w.entry)
        else ideal.used i;
  }

  abbrev pub ideal_step : Command → Ideal → Answer × Ideal
  ideal_step (sets now h e ttl) ideal = (
    taken (not (is_refused (prepare now e ttl))),
    if is_refused (prepare now e ttl) then ideal else ideal_set h (written_at now e ttl) ideal,
  )
  ideal_step (gets now h) ideal = (found (read_written now (ideal.entries h)), ideal)
  ideal_step (deletes h) ideal =
      (deleted, record ideal { entries = λ j. if h == j then none else ideal.entries j })

  abbrev pub ideal_answers : List Command → Ideal → List Answer
  ideal_answers [] ideal = []
  ideal_answers (c ∷ cs) ideal = (ideal_step c ideal).0 ∷ ideal_answers cs (ideal_step c ideal).1

-- A Set whose lengths and numbers fit the record format.
pub record FitsFormat (now h : ℕ) (e : ResponseEntry) (ttl : ℤ) : Type 0 where
  pub hash : h < 2 ^ 64
  pub size : total_entry_len (prepare now e ttl) < 2 ^ 32
  pub lengths : FitsRecord (prepare now e ttl)
  pub coded : IsEncodable (prepare now e ttl).header
  pub time : expire_nano now ttl < 2 ^ 64

abbrev pub IsFit : Command → Type 0
IsFit (sets now h e ttl) = FitsFormat now h e ttl
IsFit c = Unit
