-- ===== src/Memory/Laws.antt =====
-- What the calls of a memory storage do to its entries
-- (dsm_storage_node/src/storage/memory_storage.rs).
use dsm_decentralized_state.Base.{
  ℕ, ◌≡◌, refl, ap, ◌∙◌, true, false, none, some, List, [], ◌∷◌, ◌⊎◌, inl, inr, list_eq, nat_eq,
  list_beq, list_beq_refl, Bool-cases, Option-cases, if◌then◌else◌,
}
use dsm_decentralized_state.Base.Map
use dsm_decentralized_state.Base.Map.{get-insert, get-remove}
use dsm_decentralized_state.State.Operation.{Text}
use dsm_decentralized_state.Memory.{
  BlindedStateEntry, MemoryStorage, Sizes, within_limits, to_evict, evict_one, evict_all, evict,
  add_entry, store, retrieve,
}

-- What is there after an eviction was there before.
abbrev Kept : MemoryStorage → MemoryStorage → Text → Type 0
Kept m m' j = (Map.get j m'.entries ≡ Map.get j m.entries) ⊎ (Map.get j m'.entries ≡ none)

module _ (sizes : Sizes) where
  evict_one-Kept : (id : Text) (m : MemoryStorage) (j : Text) → Kept m (evict_one sizes id m) j
  unfolding evict_one
  evict_one-Kept id m j = elim (Option-cases (Map.get id m.entries)) [
    | inl missing ↦ inl (simp (evict_one, missing))
    | inr (entry, held) ↦ elim (Bool-cases (list_beq id j)) [
      | inl same ↦ inr (simp (evict_one, held, get-remove id j m.entries, same))
      | inr other ↦ inl (simp (evict_one, held, get-remove id j m.entries, other))
    ]
  ]

  Kept-join : (l m n : MemoryStorage) (j : Text) → Kept l m j → Kept m n j → Kept l n j
  Kept-join l m n j a (inr gone) = inr gone
  Kept-join l m n j (inl same) (inl kept) = inl (kept ∙ same)
  Kept-join l m n j (inr gone) (inl kept) = inr (kept ∙ gone)

  evict_all-Kept :
      (ids : List Text) (m : MemoryStorage) (j : Text) → Kept m (evict_all sizes ids m) j
  unfolding evict_all
  evict_all-Kept [] m j = inl refl
  evict_all-Kept (id ∷ ids) m j =
      Kept-join m (evict_one sizes id m) (evict_all sizes ids (evict_one sizes id m)) j
        (evict_one-Kept id m j) (evict_all-Kept ids (evict_one sizes id m) j)

  evict-Kept : (now : ℕ) (m : MemoryStorage) (j : Text) → Kept m (evict sizes now m) j
  unfolding evict
  evict-Kept now m j = elim (Bool-cases (within_limits m)) [
    | inl within ↦ inl (simp (evict, within))
    | inr beyond ↦
        let all = evict_all-Kept (to_evict m.config.eviction_policy now m) m j in
        simp (evict, beyond) all
  ]

  -- After `store` the entry is retrieved by its id, under every policy and whatever the limits;
  -- under any other id there is what was there before, or nothing.
  pub store-retrieve :
      (now later : ℕ) (entry : BlindedStateEntry) (m : MemoryStorage) (j : Text)
      → ((retrieve later entry.blinded_id (store sizes now entry m)).1 ≡ some entry)
        × ((list_beq entry.blinded_id j ≡ true)
            ⊎ ((Map.get j (store sizes now entry m).entries ≡ Map.get j m.entries)
                ⊎ (Map.get j (store sizes now entry m).entries ≡ none)))
  unfolding store add_entry retrieve
  store-retrieve now later entry m j = (
    retrieved,
    elim (Bool-cases (list_beq entry.blinded_id j)) [
      | inl same ↦ inl same
      | inr other ↦ inr (others other (evict-Kept now m j))
    ],
  )
    where
      found : Map.get entry.blinded_id (store sizes now entry m).entries ≡ some entry
      found =
          get-insert entry.blinded_id entry.blinded_id entry (evict sizes now m).entries
          ∙ ap (λ b. if b then some entry else Map.get entry.blinded_id (evict sizes now m).entries)
              (list_beq_refl entry.blinded_id)

      retrieved : (retrieve later entry.blinded_id (store sizes now entry m)).1 ≡ some entry
      retrieved = simp (retrieve, found)

      passed :
          list_beq entry.blinded_id j ≡ false
          → Map.get j (store sizes now entry m).entries ≡ Map.get j (evict sizes now m).entries
      passed other =
          get-insert entry.blinded_id j entry (evict sizes now m).entries
          ∙ ap (λ b. if b then some entry else Map.get j (evict sizes now m).entries) other

      others :
          list_beq entry.blinded_id j ≡ false
          → Kept m (evict sizes now m) j
          → Kept m (store sizes now entry m) j
      others other (inl same) = inl (passed other ∙ same)
      others other (inr gone) = inr (passed other ∙ gone)
