-- ===== src/Sharded/InStep.antt =====
-- One call of the sharded store and of the ideal cache: they answer the same and stay in step.
use cache_predict.Common.{
  ℕ, zero, suc, ◌+◌, ◌≡◌, ◌≢◌, refl, sym, ap, subst, Bool, true, false, not, none, some, List, [],
  ◌∷◌, Bool-cases, arith, length, if_cases, inl, inr, ltb, ◌==◌, ==_iff, if◌then◌else◌, get_elem?,
  set, get_elem?-set_self, get_elem?-set_ne, lt_of_get_elem?, ◌∙◌, Option,
}
use cache_predict.Common.Int.{ℤ}
use cache_predict.Common.Dict.{remove, All-remove, number_key}
use cache_predict.Entry.{ResponseEntry}
use cache_predict.Sharded.Ideal.{
  Command, sets, gets, deletes, taken, found, step, Written, Ideal, read_written, written_at,
  evicts, ideal_set, ideal_step, FitsFormat, IsFit,
}
use cache_predict.Sharded.Invariant.{AllSound, IsSound}
use cache_predict.Sharded.Laws.{
  IsReady, IsReadyStore, shard_index, shard_of, set_by_hash-at, delete_by_hash-at, shard_is_full,
  put_shard-IsReadyStore, set_by_hash-IsReadyStore, get-set_self, get-set_ne,
}
use cache_predict.Sharded.Ops.{ShardedStore, put_shard, get_by_hash, set_by_hash, delete_by_hash}
use cache_predict.Sharded.Removal.{get-delete}
use cache_predict.Sharded.Shard.{
  CacheShard, expire_nano, prepare, store_record, total_entry_len, delete_record,
}
use cache_predict.Sharded.Sizes.{used_after, IsMeasured, store_record-IsMeasured, is_full-fits}

-- The store and the ideal cache hold the same: their readers see the same, and the arenas are as long as the
-- ideal says.
pub record Refines (num_shards max_size : ℕ) (s : ShardedStore) (ideal : Ideal) : Type 0 where
  pub ready : IsReadyStore s
  pub sharded : s.num_shards ≡ num_shards
  pub measured :
      (i : ℕ) (sh : CacheShard)
      → get_elem? s.shards i ≡ some sh
      → (sh.max_size ≡ max_size) × (length sh.ring ≡ ideal.used i)
  pub seen : (now j : ℕ) → get_by_hash now j s ≡ read_written now (ideal.entries j)

set-get_elem? {ℓ} :
    {A : Type ℓ} (xs : List A) (i : ℕ) (a : A) → get_elem? xs i ≡ some a → set xs i a ≡ xs
set-get_elem? [] i a e = refl
set-get_elem? (x ∷ xs) zero a e = cc
set-get_elem? (x ∷ xs) (suc i) a e = ap (◌∷◌ x) (set-get_elem? xs i a e)

put_shard_back :
    (h : ℕ) (s : ShardedStore) (sh : CacheShard)
    → get_elem? s.shards (shard_index h s) ≡ some sh
    → put_shard h sh s ≡ s
unfolding put_shard
put_shard_back h s sh e =
    ap (λ (l : List CacheShard). record s { shards = l })
      (set-get_elem? s.shards (shard_index h s) sh e)

-- A shard was put back with a known size and length.
put_shard-measured :
    (max_size : ℕ) (used : ℕ → ℕ) (h len : ℕ) (s : ShardedStore) (sh sh' : CacheShard)
    → ((i : ℕ) (c : CacheShard)
        → get_elem? s.shards i ≡ some c
        → (c.max_size ≡ max_size) × (length c.ring ≡ used i))
    → get_elem? s.shards (shard_index h s) ≡ some sh
    → sh'.max_size ≡ max_size
    → length sh'.ring ≡ len
    → (i : ℕ) (c : CacheShard) → get_elem? (put_shard h sh' s).shards i ≡ some c
    → (c.max_size ≡ max_size) × (length c.ring ≡ (if shard_index h s == i then len else used i))
unfolding put_shard
put_shard-measured max_size used h len s sh sh' old here size long i c there =
    elim (Bool-cases (shard_index h s == i)) [
      | inl same ↦
          let k : shard_index h s ≡ i = (==_iff (shard_index h s) i).0 same in
          let now_here =
            get_elem?-set_self s.shards (shard_index h s) sh'
              (lt_of_get_elem? s.shards (shard_index h s) here) in
          let is : sh' ≡ c = cc (now_here, there, k) in rw (same) (rw (← is) (size, long))
      | inr apart ↦
          let k : shard_index h s ≢ i = λ e. cc (apart, (==_iff (shard_index h s) i).1 e) in
          let kept = get_elem?-set_ne s.shards (shard_index h s) i sh' k in
          rw (apart) (old i c (sym kept ∙ there))
    ]

read_written-if :
    (later : ℕ) (b : Bool) (w : Option Written)
    → (if b then none else read_written later w) ≡ read_written later (if b then none else w)
read_written-if later true w = refl
read_written-if later false w = refl

if_same : (f : ℕ → ℕ) (a i : ℕ) → (if a == i then f a else f i) ≡ f i
if_same f a i = elim (Bool-cases (a == i)) [
  | inl same ↦ rw (same) (ap f ((==_iff a i).0 same))
  | inr apart ↦ rw (apart) refl
]

delete_record-IsReady : (h : ℕ) (sh : CacheShard) → IsReady sh → IsReady (delete_record h sh)
unfolding delete_record
delete_record-IsReady h sh r =
    let sound = subst (AllSound sh.ring) r.indexed r.valid.sound in
    rw (r.indexed, delete_record, r.opened)
      (record {
        valid = record {
          bounded = r.valid.bounded;
          sized = r.valid.sized;
          sound = All-remove (IsSound sh.ring) h r.index sound;
        };
        opened = refl;
        index = remove h r.index;
        indexed = refl;
      })

delete_record-ring :
    (h : ℕ) (sh : CacheShard)
    → ((delete_record h sh).max_size ≡ sh.max_size) × ((delete_record h sh).ring ≡ sh.ring)
unfolding delete_record
delete_record-ring h sh = ground arith

module _ (max_size : ℕ) (s : ShardedStore) (ideal : Ideal)
    (rel : Refines s.num_shards max_size s ideal) where
  module _ (now h : ℕ) (e : ResponseEntry) (ttl : ℤ) (fit : FitsFormat now h e ttl) where
    abbrev result : Bool × Option ResponseEntry × ShardedStore
    result = set_by_hash now h (some e) ttl s

    abbrev total : ℕ
    total = total_entry_len (prepare now e ttl)

    shard-IsMeasured :
        (sh : CacheShard)
        → IsReady sh
        → IsMeasured sh total (store_record (expire_nano now ttl) h (prepare now e ttl) sh)
    shard-IsMeasured sh r =
        store_record-IsMeasured (expire_nano now ttl) h (prepare now e ttl) sh r fit.hash fit.size

    set_answer : result.0 ≡ not (ltb max_size total)
    set_answer =
        let (sh, here, r) = shard_of h s rel.ready in
        let m = shard-IsMeasured sh r in
        rw (set_by_hash-at h s here now e ttl, m.answer, (rel.measured (shard_index h s) sh here).0)
          refl

    set_refused : ltb max_size total ≡ true → result.2 ≡ s
    set_refused big =
        let (sh, here, r) = shard_of h s rel.ready in
        let m = shard-IsMeasured sh r in
        let size = (rel.measured (shard_index h s) sh here).0 in
        rw (set_by_hash-at h s here now e ttl, m.refused (rw (size) big))
          (put_shard_back h s sh here)

    full_as_ideal :
        ltb max_size total ≡ false
        → shard_is_full h total s ≡ ltb max_size (ideal.used (shard_index h s) + total)
    unfolding shard_is_full
    full_as_ideal fits =
        let (sh, here, r) = shard_of h s rel.ready in
        let (size, len) = rel.measured (shard_index h s) sh here in
        rw (here, shard_is_full)
          (is_full-fits (expire_nano now ttl) h (prepare now e ttl) sh r fit.hash fit.size
              (rw (size) fits)
            ∙ rw (size, len) refl)

    set_seen :
        ltb max_size total ≡ false
        → (later j : ℕ)
        → get_by_hash later j result.2
          ≡ read_written later
              ((ideal_set s.num_shards max_size h (written_at now e ttl) ideal).entries j)
    set_seen fits later j = elim (Bool-cases (h == j)) [
      | inl same ↦
          let k : h ≡ j = (==_iff h j).0 same in
          rw (same) (
            rw (← k) (
              get-set_self now h e ttl s rel.ready fit.hash fit.size later fit.lengths fit.coded
                fit.time (rw (set_answer, fits) refl)))
      | inr apart ↦
          let k : h ≢ j = λ q. cc (apart, (==_iff h j).1 q) in
          rw
            (
              apart,
              get-set_ne now h e ttl s rel.ready fit.hash fit.size later j k,
              set_answer,
              fits,
              full_as_ideal fits,
              rel.seen later j,
            )
            (read_written-if later (evicts s.num_shards max_size h j (prepare now e ttl) ideal)
              (ideal.entries j))
    ]

    set_kept :
        ltb max_size total ≡ false
        → Refines s.num_shards max_size result.2
            (ideal_set s.num_shards max_size h (written_at now e ttl) ideal)
    set_kept fits =
        let (sh, here, r) = shard_of h s rel.ready in
        let m = shard-IsMeasured sh r in
        let (size, len) = rel.measured (shard_index h s) sh here in
        let done = set_by_hash-at h s here now e ttl in
        record {
          ready = set_by_hash-IsReadyStore now h e ttl s rel.ready fit.hash fit.size;
          sharded = rw (done) (unfold put_shard in refl);
          measured = rw (done) (
              put_shard-measured max_size ideal.used h
                (used_after max_size (ideal.used (shard_index h s)) total) s sh _ rel.measured here
                (m.same_size ∙ size) (m.new_length ∙ rw (size, len) refl));
          seen = set_seen fits;
        }

    set_step :
        ((step (sets now h e ttl) s).0
          ≡ (ideal_step s.num_shards max_size (sets now h e ttl) ideal).0)
        × Refines s.num_shards max_size result.2
            (ideal_step s.num_shards max_size (sets now h e ttl) ideal).1
    set_step = (
      ap taken set_answer,
      if_cases (Refines s.num_shards max_size result.2) (ltb max_size total) _ _
          (λ big. rw (set_refused big) rel) (λ fits. set_kept fits),
    )

  delete_step :
      (h : ℕ)
      → Refines s.num_shards max_size
          (delete_by_hash h s)
          (ideal_step s.num_shards max_size (deletes h) ideal).1
  delete_step h =
      let (sh, here, r) = shard_of h s rel.ready in
      let (size, len) = rel.measured (shard_index h s) sh here in
      let (kept_size, kept_ring) = delete_record-ring h sh in
      let done = delete_by_hash-at h s here in
      record {
        ready = rw (done) (
            put_shard-IsReadyStore h (delete_record h sh) s rel.ready
              (delete_record-IsReady h sh r));
        sharded = rw (done) (unfold put_shard in refl);
        measured = λ i c there.
            let (same, long) =
              put_shard-measured max_size ideal.used h (ideal.used (shard_index h s)) s sh
                (delete_record h sh) rel.measured here (kept_size ∙ size)
                (ap length kept_ring ∙ len) i c (rw (done) at there) in
            (same, long ∙ if_same ideal.used (shard_index h s) i);
        seen = λ now j.
            rw (get-delete now h j s, rel.seen now j)
              (read_written-if now (h == j) (ideal.entries j));
      }

pub Refines-step :
    (n max_size : ℕ) (c : Command) (s : ShardedStore) (ideal : Ideal)
    → Refines n max_size s ideal
    → IsFit c
    → ((step c s).0 ≡ (ideal_step n max_size c ideal).0)
      × Refines n max_size (step c s).1 (ideal_step n max_size c ideal).1
Refines-step n max_size (sets now h e ttl) s ideal rel fit =
    rw (← rel.sharded) (set_step max_size s ideal (rw (← rel.sharded) at rel) now h e ttl fit)
Refines-step n max_size (gets now h) s ideal rel fit = (ap found (rel.seen now h), rel)
Refines-step n max_size (deletes h) s ideal rel fit =
    rw (← rel.sharded) (refl, delete_step max_size s ideal (rw (← rel.sharded) at rel) h)
