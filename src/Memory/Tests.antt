-- ===== src/Memory/Tests.antt =====
-- A memory storage with small limits, and one instance of each theorem.
use dsm_decentralized_state.Base.{
  ℕ, ◌+◌, ◌≡◌, ◌⊎◌, inl, refl, true, some, none, List, [], ◌∷◌, length, list_beq, nat_eq, list_eq,
}
use dsm_decentralized_state.Base.Map
use dsm_decentralized_state.Memory.{
  BlindedStateEntry, MemoryStorageConfig, Sizes, lru, fifo, new, store, retrieve,
}
use dsm_decentralized_state.Memory.Laws.{store-retrieve}
use dsm_decentralized_state.Memory.Eviction.{store_all, insert_each, store_all-unlimited}

abbrev sizes : Sizes
sizes = record {
  entry_size = λ entry. 100 + length entry.encrypted_payload;
  pair_size = λ id entry. 8 + length id + (100 + length entry.encrypted_payload);
}

abbrev entry : ℕ → BlindedStateEntry
entry n = record {
  blinded_id = n ∷ [];
  encrypted_payload = 1 ∷ 2 ∷ [];
  timestamp = 0;
  ttl = 0;
  region = [];
  priority = 0;
  proof_hash = [];
  metadata = [];
}

abbrev full : MemoryStorageConfig
full = record { max_memory_bytes = 10; max_entries = 0; eviction_policy = fifo }

abbrev recent : MemoryStorageConfig
recent = record { max_memory_bytes = 10; max_entries = 1; eviction_policy = lru }

store-retrieve_example :
    ((retrieve 9 (2 ∷ []) (store sizes 8 (entry 2) (store sizes 7 (entry 1) (new full)))).1
      ≡ some (entry 2))
    × ((list_beq {A = ℕ} (2 ∷ []) (1 ∷ []) ≡ true)
        ⊎ ((Map.get (1 ∷ []) (store sizes 8 (entry 2) (store sizes 7 (entry 1) (new full))).entries
              ≡ Map.get (1 ∷ []) (store sizes 7 (entry 1) (new full)).entries)
            ⊎ (Map.get
                  (1 ∷ [])
                  (store sizes 8 (entry 2) (store sizes 7 (entry 1) (new full))).entries
                ≡ none)))
store-retrieve_example =
    store-retrieve sizes 8 9 (entry 2) (store sizes 7 (entry 1) (new full)) (1 ∷ [])

abbrev three : List (record { 0 : ℕ; 1 : BlindedStateEntry })
three = (5, entry 1) ∷ (6, entry 2) ∷ (7, entry 3) ∷ []

store_all-unlimited_example :
    (store_all sizes three (new recent)).entries ≡ insert_each sizes three []
store_all-unlimited_example = store_all-unlimited sizes three recent (inl refl)
