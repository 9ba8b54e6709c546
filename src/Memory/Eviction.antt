-- ===== src/Memory/Eviction.antt =====
-- What the eviction of a memory storage evicts, and what it counts
-- (`evict` in dsm_storage_node/src/storage/memory_storage.rs).
use dsm_decentralized_state.Base.{
  ℕ, ◌+◌, ◌-◌, ◌%◌, ◌<◌, ◌≡◌, ◌⊎◌, inl, inr, refl, ap, ◌∙◌, true, false, List, [], ◌∷◌, arith,
  length, list_eq, nat_eq, list_beq_refl, Bool-cases,
}
use dsm_decentralized_state.Base.Word.{u64_mod}
use dsm_decentralized_state.Base.Map
use dsm_decentralized_state.Base.Map.{Map}
use dsm_decentralized_state.State.Operation.{Text}
use dsm_decentralized_state.Memory.{
  BlindedStateEntry, EvictionPolicy, lru, lfu, fifo, MemoryStorageConfig, MemoryStorage, Sizes, new,
  ages, sort_by_value, to_evict, within_limits, evict_one, evict_all, evict, add_entry, store,
}

-- Nothing was retrieved, and the policy is one that looks at what was.
record Unread (m : MemoryStorage) : Type 0 where
  uncounted : m.access_counts ≡ []
  unaccessed : m.last_accessed ≡ []
  looks : (m.config.eviction_policy ≡ lru) ⊎ (m.config.eviction_policy ≡ lfu)

no_candidates :
    (policy : EvictionPolicy) (now : ℕ) (m : MemoryStorage)
    → m.access_counts ≡ []
    → m.last_accessed ≡ []
    → (policy ≡ lru) ⊎ (policy ≡ lfu)
    → to_evict policy now m ≡ []
unfolding to_evict ages sort_by_value
no_candidates policy now m uncounted unaccessed (inl e) = rw (e, unaccessed) refl
no_candidates policy now m uncounted unaccessed (inr e) = rw (e, uncounted) refl

module _ (sizes : Sizes) where
  evict-Unread : (now : ℕ) (m : MemoryStorage) → Unread m → evict sizes now m ≡ m
  unfolding evict evict_all
  evict-Unread now m u = elim (Bool-cases (within_limits m)) [
    | inl within ↦ simp (evict, within)
    | inr beyond ↦
        let none_left : to_evict m.config.eviction_policy now m ≡ [] =
          no_candidates m.config.eviction_policy now m u.uncounted u.unaccessed u.looks in
        simp (evict, beyond, none_left)
  ]

  -- Entries stored one after another, each with the clock reading of its call.
  unfoldable pub store_all :
      List (record { 0 : ℕ; 1 : BlindedStateEntry }) → MemoryStorage → MemoryStorage
  store_all [] m = m
  store_all ((now, entry) ∷ rest) m = store_all rest (store sizes now entry m)

  -- The same without any limit.
  unfoldable pub insert_each :
      List (record { 0 : ℕ; 1 : BlindedStateEntry })
      → Map Text BlindedStateEntry
      → Map Text BlindedStateEntry
  insert_each [] entries = entries
  insert_each ((now, entry) ∷ rest) entries =
      insert_each rest (Map.insert entry.blinded_id entry entries)

  store-Unread :
      (now : ℕ) (entry : BlindedStateEntry) (m : MemoryStorage)
      → Unread m
      → Unread (add_entry sizes entry m) × (store sizes now entry m ≡ add_entry sizes entry m)
  unfolding store add_entry
  store-Unread now entry m u = (
    record { uncounted = u.uncounted; unaccessed = u.unaccessed; looks = u.looks },
    ap (add_entry sizes entry) (evict-Unread now m u),
  )

  store_all-Unread :
      (calls : List (record { 0 : ℕ; 1 : BlindedStateEntry })) (m : MemoryStorage)
      → Unread m
      → (store_all calls m).entries ≡ insert_each calls m.entries
  unfolding store_all insert_each add_entry
  store_all-Unread [] m u = refl
  store_all-Unread ((now, entry) ∷ rest) m u =
      let (kept, same) = store-Unread now entry m u in
      ap (λ (x : MemoryStorage). (store_all rest x).entries) same
      ∙ store_all-Unread rest (add_entry sizes entry m) kept

  -- Under the policies LRU and LFU entries that were never retrieved are not evicted: however many
  -- are stored in a new storage, and however small its limits, all stay.
  pub store_all-unlimited :
      (calls : List (record { 0 : ℕ; 1 : BlindedStateEntry })) (config : MemoryStorageConfig)
      → (config.eviction_policy ≡ lru) ⊎ (config.eviction_policy ≡ lfu)
      → (store_all calls (new config)).entries ≡ insert_each calls []
  unfolding new
  store_all-unlimited calls config looks =
      store_all-Unread calls (new config)
        record { uncounted = refl; unaccessed = refl; looks = looks }

  -- A storage with one entry.
  abbrev single : MemoryStorageConfig → BlindedStateEntry → MemoryStorage
  single config entry = record {
    entries = (entry.blinded_id, entry) ∷ [];
    total_bytes = (0 + sizes.entry_size entry) % u64_mod;
    config = config;
    access_counts = [];
    last_accessed = [];
    insertion_order = entry.blinded_id ∷ [];
  }

  new-within : (config : MemoryStorageConfig) → within_limits (new config) ≡ true
  unfolding within_limits new
  new-within config = ground arith

  store-single :
      (now : ℕ) (entry : BlindedStateEntry) (config : MemoryStorageConfig)
      → store sizes now entry (new config) ≡ single config entry
  unfolding store evict add_entry new Map.insert
  store-single now entry config =
      let kept : evict sizes now (new config) ≡ new config = rw (evict, new-within config) refl in
      ap (add_entry sizes entry) kept

  evict-single :
      (now : ℕ) (entry : BlindedStateEntry) (config : MemoryStorageConfig)
      → config.eviction_policy ≡ fifo
      → config.max_entries ≡ 0
      → evict sizes now (single config entry)
        ≡ evict_one sizes entry.blinded_id (single config entry)
  unfolding evict within_limits to_evict evict_all
  evict-single now entry config policy none_fit =
      let beyond : within_limits (single config entry) ≡ false = ground arith in
      let first : to_evict config.eviction_policy now (single config entry)
          ≡ entry.blinded_id ∷ [] =
        rw policy refl in
      simp (evict, beyond, first)

  evict_one-single :
      (entry : BlindedStateEntry) (config : MemoryStorageConfig)
      → ((evict_one sizes entry.blinded_id (single config entry)).entries ≡ [])
        × ((evict_one sizes entry.blinded_id (single config entry)).total_bytes
            ≡ ((0 + sizes.entry_size entry) % u64_mod
                + (u64_mod - sizes.pair_size entry.blinded_id entry % u64_mod))
              % u64_mod)
  unfolding evict_one Map.get Map.remove
  evict_one-single entry config =
      let same = list_beq_refl entry.blinded_id in (simp (evict_one, same), simp (evict_one, same))

  -- An entry is counted when it is stored, and the entry with its key when it is evicted: store one
  -- entry in a new storage with the policy FIFO and no room for entries. The eviction that follows
  -- leaves no entry, and a byte count that has wrapped around below 0 by the length of the key.
  evict-wraps :
      (now : ℕ) (entry : BlindedStateEntry) (config : MemoryStorageConfig)
      → config.eviction_policy ≡ fifo
      → config.max_entries ≡ 0
      → sizes.pair_size entry.blinded_id entry
        ≡ 8 + length entry.blinded_id + sizes.entry_size entry
      → 8 + length entry.blinded_id + sizes.entry_size entry < u64_mod
      → ((evict sizes now (store sizes now entry (new config))).entries ≡ [])
        × ((evict sizes now (store sizes now entry (new config))).total_bytes
            ≡ u64_mod - (8 + length entry.blinded_id))
  evict-wraps now entry config policy none_fit sized small =
      let run : evict sizes now (store sizes now entry (new config))
          ≡ evict_one sizes entry.blinded_id (single config entry) =
        ap (evict sizes now) (store-single now entry config)
        ∙ evict-single now entry config policy none_fit in
      let (empty, counted) = evict_one-single entry config in
      (
        ap (λ (m : MemoryStorage). m.entries) run ∙ empty,
        ap (λ (m : MemoryStorage). m.total_bytes) run ∙ counted ∙ wrapped,
      )
    where
      wrapped :
          ((0 + sizes.entry_size entry) % u64_mod
              + (u64_mod - sizes.pair_size entry.blinded_id entry % u64_mod))
            % u64_mod
          ≡ u64_mod - (8 + length entry.blinded_id)
      wrapped = omega (arith, sized, small)
