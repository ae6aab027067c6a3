-- ===== src/Rocks/Core/Batch.antt =====
-- oceanraft/src/storage/rocks.rs, `append`: what the batch of an append leaves under each key.
use oceanraft.Common.{
  ℕ, zero, suc, ◌+◌, ◌-◌, ◌^◌, ◌<◌, ◌≤◌, ◌≡◌, refl, ap, ◌∙◌, inl, inr, Bool, true, false, List, [],
  ◌∷◌, ◌++◌, map, Option, some, none, ltb, ◌==◌, if◌then◌else◌, length, get_elem?, Bool-cases,
  arith,
}
use oceanraft.Types.{Entry}
use oceanraft.Storage.Mem.Contiguous.{Contiguous}
use oceanraft.Rocks.Keys.{
  Bytes, format_empty_key, format_first_index_key, format_last_index_key, format_entry_key,
  same_bytes,
}
use oceanraft.Rocks.Keys.Order.{same_bytes-format_entry_key, same_bytes_refl}
use oceanraft.Rocks.Keys.Apart.{
  entry_empty, entry_first, empty_entry, first_entry, last_entry, first_empty, last_empty,
  empty_first, last_first,
}
use oceanraft.Rocks.Db.{Cf, log_cf, metadata_cf, Put, Prost, put_value, write_value}
use oceanraft.Rocks.Core.{RockStoreCore, to_be_bytes, flag_text}
use oceanraft.Rocks.Core.Log.{entry_put, append_batch, last_of}

write_value-append :
    (ps qs : List Put) (cf : Cf) (key : Bytes) (old : Option Bytes)
    → write_value (ps ++ qs) cf key old ≡ write_value qs cf key (write_value ps cf key old)
unfolding write_value
write_value-append [] qs cf key old = refl
write_value-append (p ∷ ps) qs cf key old = write_value-append ps qs cf key (put_value p cf key old)

module _ (prost : Prost) (core : RockStoreCore) where
  entries-meta :
      (es : List Entry) (key : Bytes) (old : Option Bytes)
      → write_value (map (entry_put prost core) es) metadata_cf key old ≡ old
  unfolding write_value put_value entry_put
  entries-meta [] key old = refl
  entries-meta (e ∷ es) key old = entries-meta es key old

  -- What stands under the key of an entry that a batch writes, or does not.
  abbrev pub written : Option Entry → Option Bytes → Option Bytes
  written none old = old
  written (some e) old = some (prost.entry.encode e)

  put_entry :
      (e : Entry) (key : Bytes) (old : Option Bytes)
      → put_value (entry_put prost core e) log_cf key old ≡ (
          if same_bytes (format_entry_key core.group_id e.index) key
          then some (prost.entry.encode e)
          else old)
  unfolding put_value entry_put
  put_entry e key old = refl

  -- The entries of a batch write no key but their own.
  entries-apart :
      (es : List Entry) (key : Bytes) (old : Option Bytes)
      → ((j : ℕ) → same_bytes (format_entry_key core.group_id j) key ≡ false)
      → write_value (map (entry_put prost core) es) log_cf key old ≡ old
  unfolding write_value
  entries-apart [] key old apart = refl
  entries-apart (e ∷ es) key old apart =
      let kept : put_value (entry_put prost core e) log_cf key old ≡ old =
        put_entry e key old ∙ rw (apart e.index) refl in
      rw (write_value, kept) (entries-apart es key old apart)

  entries-own :
      (i j : ℕ) (es : List Entry) (old : Option Bytes)
      → Contiguous j es
      → j + length es ≤ 10 ^ 20
      → i < 10 ^ 20
      → write_value (map (entry_put prost core) es) log_cf (format_entry_key core.group_id i) old
        ≡ (if ltb i j then old else written (get_elem? es (i - j)) old)
  unfolding write_value
  entries-own i j [] old run top hi = ground arith
  entries-own i j (e ∷ es) old run top hi =
      let key = format_entry_key core.group_id i in
      let at : e.index ≡ j = run.0 in
      let same = same_bytes-format_entry_key core.group_id e.index i (omega (arith, at)) hi in
      let put : put_value (entry_put prost core e) log_cf key old
          ≡ (if e.index == i then some (prost.entry.encode e) else old) =
        put_entry e key old ∙ rw same refl in
      rw (write_value, put)
        (entries-own i (suc j) es (if e.index == i then some (prost.entry.encode e) else old) run.1
            (omega arith) hi
          ∙ found)
    where
      found :
          (if ltb i (suc j)
            then (if e.index == i then some (prost.entry.encode e) else old)
            else written
                (get_elem? es (i - suc j))
                (if e.index == i then some (prost.entry.encode e) else old))
          ≡ (if ltb i j then old else written (get_elem? (e ∷ es) (i - j)) old)
      found = elim (Bool-cases (ltb i j)) [
        | inl below ↦
            let low : ltb i (suc j) ≡ true = ground arith in
            let off : (e.index == i) ≡ false = ground (arith, run.0) in rw (below, low, off) refl
        | inr above ↦ elim (Bool-cases (ltb i (suc j))) [
          | inl low ↦
              let here : (e.index == i) ≡ true = ground (arith, run.0) in
              let first : i - j ≡ zero = ground arith in rw (above, low, here, first) refl
          | inr high ↦
              let off : (e.index == i) ≡ false = ground (arith, run.0) in
              let next : i - j ≡ suc (i - suc j) = ground arith in rw (above, high, off, next) refl
        ]
      ]

  abbrev puts_before : Bool → Entry → List Put
  puts_before empty e =
      if empty
      then (record {
        cf = log_cf;
        key = format_first_index_key core.group_id core.replica_id;
        value = to_be_bytes e.index;
      })
        ∷ (record {
          cf = log_cf;
          key = format_empty_key core.group_id core.replica_id;
          value = flag_text false;
        })
        ∷ []
      else []

  abbrev put_last : Entry → List Entry → Put
  put_last e es = record {
    cf = log_cf;
    key = format_last_index_key core.group_id core.replica_id;
    value = to_be_bytes (last_of e es);
  }

  module _ (empty : Bool) (e : Entry) (es : List Entry) (old : Option Bytes) where
    batch_lem :
        (key : Bytes)
        → write_value (append_batch prost core empty e es) log_cf key old
          ≡ put_value (put_last e es) log_cf key (
              write_value
                (map (entry_put prost core) (e ∷ es))
                log_cf
                key
                (write_value (puts_before empty e) log_cf key old))
    unfolding append_batch write_value
    batch_lem key =
        write_value-append (puts_before empty e ++ map (entry_put prost core) (e ∷ es))
          (put_last e es ∷ []) log_cf key old
        ∙ ap (put_value (put_last e es) log_cf key) (
            write_value-append (puts_before empty e) (map (entry_put prost core) (e ∷ es)) log_cf
              key old)

    pub batch_flag :
        old ≡ some (flag_text empty)
        → write_value
            (append_batch prost core empty e es)
            log_cf
            (format_empty_key core.group_id core.replica_id)
            old
          ≡ some (flag_text false)
    unfolding put_value write_value
    batch_flag h =
        let key = format_empty_key core.group_id core.replica_id in
        let before : Option Bytes = write_value (puts_before empty e) log_cf key old in
        let apart = λ (j : ℕ). entry_empty core.group_id j core.group_id core.replica_id in
        let kept = entries-apart (e ∷ es) key before apart in
        let set : before ≡ some (flag_text false) = elim (Bool-cases empty) [
          | inl t ↦ rw (t, first_empty core.group_id core.replica_id, same_bytes_refl key) refl
          | inr f ↦ rw f (h ∙ rw f refl)
        ] in
        batch_lem key ∙ rw (last_empty core.group_id core.replica_id) (kept ∙ set)

    pub batch_first :
        write_value
          (append_batch prost core empty e es)
          log_cf
          (format_first_index_key core.group_id core.replica_id)
          old
        ≡ (if empty then some (to_be_bytes e.index) else old)
    unfolding put_value write_value
    batch_first =
        let key = format_first_index_key core.group_id core.replica_id in
        let before : Option Bytes = write_value (puts_before empty e) log_cf key old in
        let apart = λ (j : ℕ). entry_first core.group_id j core.group_id core.replica_id in
        let kept = entries-apart (e ∷ es) key before apart in
        let set : before ≡ (if empty then some (to_be_bytes e.index) else old) =
          elim (Bool-cases empty) [
            | inl t ↦ rw (t, same_bytes_refl key, empty_first core.group_id core.replica_id) refl
            | inr f ↦ rw f refl
          ] in
        batch_lem key ∙ rw (last_first core.group_id core.replica_id) (kept ∙ set)

    pub batch_last :
        write_value
          (append_batch prost core empty e es)
          log_cf
          (format_last_index_key core.group_id core.replica_id)
          old
        ≡ some (to_be_bytes (last_of e es))
    unfolding put_value
    batch_last =
        let key = format_last_index_key core.group_id core.replica_id in
        batch_lem key ∙ rw (same_bytes_refl key) refl

    -- Every entry of the batch stands under its key, and the other entries as before.
    pub batch_entry :
        (i : ℕ)
        → Contiguous e.index (e ∷ es)
        → e.index + length (e ∷ es) ≤ 10 ^ 20
        → i < 10 ^ 20
        → write_value
            (append_batch prost core empty e es)
            log_cf
            (format_entry_key core.group_id i)
            old
          ≡ (if ltb i e.index then old else written (get_elem? (e ∷ es) (i - e.index)) old)
    unfolding put_value write_value
    batch_entry i run top hi =
        let key = format_entry_key core.group_id i in
        let before : Option Bytes = write_value (puts_before empty e) log_cf key old in
        let kept : before ≡ old = elim (Bool-cases empty) [
          | inl t ↦
              rw
                (
                  t,
                  first_entry core.group_id i core.group_id core.replica_id,
                  empty_entry core.group_id i core.group_id core.replica_id,
                )
                refl
          | inr f ↦ rw f refl
        ] in
        batch_lem key
        ∙ rw (last_entry core.group_id i core.group_id core.replica_id, kept)
            (entries-own i e.index (e ∷ es) old run top hi)

    -- No batch of an append writes the metadata.
    pub batch_meta :
        (key : Bytes) → write_value (append_batch prost core empty e es) metadata_cf key old ≡ old
    unfolding append_batch write_value put_value
    batch_meta key =
        let entries = map (entry_put prost core) (e ∷ es) in
        let before : write_value (puts_before empty e) metadata_cf key old ≡ old =
          elim (Bool-cases empty) [ inl t ↦ rw t refl | inr f ↦ rw f refl ] in
        write_value-append (puts_before empty e ++ entries) (put_last e es ∷ []) metadata_cf key old
        ∙ write_value-append (puts_before empty e) entries metadata_cf key old
        ∙ ap (write_value entries metadata_cf key) before
        ∙ entries-meta (e ∷ es) key old
