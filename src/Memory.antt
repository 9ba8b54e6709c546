-- ===== src/Memory.antt =====
-- `MemoryStorage` of the storage node (dsm_storage_node/src/storage/memory_storage.rs): entries by
-- their blinded ids, with eviction. The clock readings are arguments; the lengths that `bincode`
-- serializes to are those of a record of parameters, and serializing does not fail. The order of
-- a map is the one in which its iterators meet the entries.
pub mod Laws
pub mod Eviction
mod Tests
use dsm_decentralized_state.Base.{
  ℕ, ◌+◌, ◌-◌, ◌*◌, ◌%◌, ◌^◌, Bool, true, false, ◌&&◌, Option, none, some, List, [], ◌∷◌, ◌++◌,
  length, take, drop, leb, ltb, nat_eq, list_eq, if◌then◌else◌,
}
use dsm_decentralized_state.Base.Word.{u64_mod, wrapping_add}
use dsm_decentralized_state.Base.Map
use dsm_decentralized_state.Base.Map.{Map, keys}
use dsm_decentralized_state.State.Operation.{Bytes, Text}
use dsm_decentralized_state.State.Model.Text.{sort_entries}

-- `priority` is an `i32` that nothing here reads, given by its bits.
pub record BlindedStateEntry : Type 0 where
  pub blinded_id : Text
  pub encrypted_payload : Bytes
  pub timestamp : ℕ
  pub ttl : ℕ
  pub region : Text
  pub priority : ℕ
  pub proof_hash : Bytes
  pub metadata : Map Text Text

pub data EvictionPolicy : Type 0 where
  lru lfu fifo : EvictionPolicy

-- The path, the database and the compression are left out.
pub record MemoryStorageConfig : Type 0 where
  pub max_memory_bytes : ℕ
  pub max_entries : ℕ
  pub eviction_policy : EvictionPolicy

pub record MemoryStorage : Type 0 where
  pub entries : Map Text BlindedStateEntry
  pub total_bytes : ℕ
  pub config : MemoryStorageConfig
  pub access_counts : Map Text ℕ
  pub last_accessed : Map Text ℕ
  pub insertion_order : List Text

-- `bincode::serialize(..).len()`, of an entry, and of the pair of a key and its entry.
pub record Sizes : Type 0 where
  pub entry_size : BlindedStateEntry → ℕ
  pub pair_size : Text → BlindedStateEntry → ℕ

-- without persisted data
unfoldable pub new : MemoryStorageConfig → MemoryStorage
new config = record {
  entries = [];
  total_bytes = 0;
  config = config;
  access_counts = [];
  last_accessed = [];
  insertion_order = [];
}

-- `sort_by_key(|(_id, value)| *value)`, which is stable.
insert_by_value : Text → ℕ → Map Text ℕ → Map Text ℕ
insert_by_value id n [] = (id, n) ∷ []
insert_by_value id n ((j, m) ∷ rest) =
    let later = insert_by_value id n rest in
    if leb n m then (id, n) ∷ (j, m) ∷ rest else (j, m) ∷ later

unfoldable pub sort_by_value : Map Text ℕ → Map Text ℕ
unfolding insert_by_value
sort_by_value [] = []
sort_by_value ((id, n) ∷ rest) = insert_by_value id n (sort_by_value rest)

-- `now - *entry.value()`, on `u64`
unfoldable pub ages : ℕ → Map Text ℕ → Map Text ℕ
ages now [] = []
ages now ((id, accessed) ∷ rest) =
    (id, (now % u64_mod + (u64_mod - accessed % u64_mod)) % u64_mod) ∷ ages now rest

-- the ids that `evict` takes
unfoldable pub to_evict : EvictionPolicy → ℕ → MemoryStorage → List Text
unfolding ages sort_by_value
to_evict lru now m = take 100 (keys (sort_by_value (ages now m.last_accessed)))
to_evict lfu now m = take 100 (keys (sort_by_value m.access_counts))
to_evict fifo now m = take 100 m.insertion_order

-- `current_size <= max_memory_bytes && len <= max_entries`
unfoldable pub within_limits : MemoryStorage → Bool
within_limits m =
    leb m.total_bytes m.config.max_memory_bytes && leb (length m.entries) m.config.max_entries

update_access_metrics : ℕ → Text → MemoryStorage → MemoryStorage
update_access_metrics now id m = record m {
  last_accessed = Map.insert id now m.last_accessed;
  access_counts =
      Map.insert id
        (elim (Map.get id m.access_counts) [ none ↦ 1 | some count ↦ wrapping_add count 1 ])
        m.access_counts;
}

module _ (sizes : Sizes) where
  -- What is removed is the pair of the key and the entry.
  unfoldable pub evict_one : Text → MemoryStorage → MemoryStorage
  evict_one id m = elim (Map.get id m.entries) [
    | none ↦ m
    | some entry ↦ record m {
      entries = Map.remove id m.entries;
      total_bytes = (m.total_bytes + (u64_mod - sizes.pair_size id entry % u64_mod)) % u64_mod;
      access_counts = Map.remove id m.access_counts;
      last_accessed = Map.remove id m.last_accessed;
    }
  ]

  unfoldable pub evict_all : List Text → MemoryStorage → MemoryStorage
  unfolding evict_one
  evict_all [] m = m
  evict_all (id ∷ ids) m = evict_all ids (evict_one id m)

  unfoldable pub evict : ℕ → MemoryStorage → MemoryStorage
  unfolding within_limits to_evict evict_all
  evict now m = if within_limits m then m else evict_all (to_evict m.config.eviction_policy now m) m

  -- the writes of `store` after the eviction
  unfoldable pub add_entry : BlindedStateEntry → MemoryStorage → MemoryStorage
  add_entry entry m = record m {
    entries = Map.insert entry.blinded_id entry m.entries;
    total_bytes = (m.total_bytes + sizes.entry_size entry) % u64_mod;
    insertion_order = m.insertion_order ++ entry.blinded_id ∷ [];
  }

  -- The response has nothing that depends on the storage.
  unfoldable pub store : ℕ → BlindedStateEntry → MemoryStorage → MemoryStorage
  unfolding evict add_entry
  store now entry m = add_entry entry (evict now m)

-- What a call leaves, and returns.
abbrev pub Outcome : Type 0 → Type 0
Outcome A = MemoryStorage × A

unfoldable pub retrieve : ℕ → Text → MemoryStorage → Outcome (Option BlindedStateEntry)
unfolding update_access_metrics
retrieve now id m = elim (Map.get id m.entries) [
  | none ↦ (m, none)
  | some entry ↦ (update_access_metrics now id m, some entry)
]

unfoldable pub delete : Text → MemoryStorage → Outcome Bool
delete id m = elim (Map.get id m.entries) [
  | none ↦ (m, false)
  | some entry ↦ (
    record m {
      entries = Map.remove id m.entries;
      access_counts = Map.remove id m.access_counts;
      last_accessed = Map.remove id m.last_accessed;
    },
    true,
  )
]

unfoldable pub exists : Text → MemoryStorage → Bool
exists id m = Map.contains_key id m.entries

-- `entries.sort()`, of ids
sort_ids : List Text → List Text
sort_ids ids = keys (sort_entries (as_keys ids))
  where
    as_keys : List Text → Map Text (Unit {0})
    as_keys [] = []
    as_keys (id ∷ rest) = (id, tt) ∷ as_keys rest

-- `unwrap_or(..)`
abbrev or_number : Option ℕ → ℕ → ℕ
or_number none n = n
or_number (some k) n = k

unfoldable pub list : Option ℕ → Option ℕ → MemoryStorage → List Text
unfolding sort_ids
list limit offset m =
    sort_ids (take (or_number limit 100) (drop (or_number offset 0) (keys m.entries)))
