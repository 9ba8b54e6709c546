-- ===== src/Batches/Hashes.antt =====
-- `StateBatch::hash` and `StateBatch::verify` (dsm/src/core/state_machine/batch.rs).
use dsm_decentralized_state.Base.{
  ℕ, zero, suc, ◌+◌, ◌^◌, ◌≤◌, ◌<◌, ◌≡◌, ap, ◌∙◌, sym, ◌⊎◌, inl, inr, Bool, true, false, ◌&&◌, some,
  List, [], ◌∷◌, length, arith, get_elem?, list_beq, list_beq→eq, list_eq, nat_eq, Bool-cases,
  if◌then◌else◌,
}
use dsm_decentralized_state.Merkle.Hash.{Collision, same_or_collision}
use dsm_decentralized_state.State.Operation.{Bytes}
use dsm_decentralized_state.State.Model.{Primitives, Sized}
use dsm_decentralized_state.Token.Balance.Locking.{le_bytes_injective}
use dsm_decentralized_state.Batches.{
  StateBatch, BatchCommitment, Codec, batch_bytes, commitments_match, forward_matches, verify,
}

-- The second and the third of four tests that are passed.
passed :
    (a b c d : Bool) (x y : StateBatch)
    → (if◌then◌else◌ {A = StateBatch × Bool} (a && b && c && d) (x, true) (y, false)).1 ≡ true
    → (b ≡ true) × (c ≡ true)
passed a b c d x y e = ground arith

module _ (p : Primitives) (codec : Codec) where
  -- What `verify` has compared when it returns true.
  record Checked (b : StateBatch) : Type 0 where
    hashed : p.blake3 (batch_bytes p codec b) ≡ b.transitions_root
    matched : commitments_match p codec b.transitions_root b.commitments ≡ true

  verify-Checked : (prev : Bytes) (b : StateBatch) → (verify p codec prev b).1 ≡ true → Checked b
  unfolding verify
  verify-Checked prev b e =
      let (hashed, matched) =
        passed (list_beq b.prev_state_hash prev)
          (list_beq (p.blake3 (batch_bytes p codec b)) b.transitions_root)
          (commitments_match p codec b.transitions_root b.commitments)
          (forward_matches p codec b.transitions_root b.forward_commitment) _ _ e in
      record { hashed = list_beq→eq _ _ hashed; matched = matched }

  matched_at :
      (cs : List BatchCommitment) (root : Bytes) (i : ℕ) (c : BatchCommitment)
      → commitments_match p codec root cs ≡ true
      → get_elem? cs i ≡ some c
      → codec.serialize_commitment c ≡ root
  matched_at [] root i c m e = absurd cc
  matched_at (d ∷ cs) root zero c m e =
      let same : d ≡ c = cc in
      elim (Bool-cases (list_beq (codec.serialize_commitment d) root)) [
        | inl at ↦ ap codec.serialize_commitment (sym same) ∙ list_beq→eq _ _ at
        | inr off ↦ absurd (cc (m, off))
      ]
  matched_at (d ∷ cs) root (suc i) c m e =
      elim (Bool-cases (list_beq (codec.serialize_commitment d) root)) [
        | inl at ↦ matched_at cs root i c (rw at at m) e
        | inr off ↦ absurd (cc (m, off))
      ]

  -- Take 32-byte hashes, and an encoding that writes a commitment as at least 32 bytes besides its
  -- hash (`bincode` writes one number and the lengths of three lists, of 8 bytes each). `verify`
  -- rejects every batch that has a commitment whose hash is not empty, whatever the rest is.
  pub verify-committed :
      (prev : Bytes) (b : StateBatch) (i : ℕ) (c : BatchCommitment)
      → Sized p
      → ((d : BatchCommitment)
          → 32 + length d.commitment_hash ≤ length (codec.serialize_commitment d))
      → get_elem? b.commitments i ≡ some c
      → 0 < length c.commitment_hash
      → (verify p codec prev b).1 ≡ false
  verify-committed prev b i c sized long there nonempty =
      elim (Bool-cases (verify p codec prev b).1) [
        | inr rejected ↦ rejected
        | inl accepted ↦
            let k = verify-Checked prev b accepted in
            let same = matched_at b.commitments b.transitions_root i c k.matched there in
            absurd (
              omega
                (arith, long c, ap length same, ap length k.hashed, sized (batch_bytes p codec b)))
      ]

  -- Of two batches with one transitions root, numbered as `u64`, that `verify` both accepts, the
  -- numbers are equal, or two inputs of BLAKE3 with one hash are found.
  pub verify-once :
      (prev prev' : Bytes) (b b' : StateBatch)
      → b.batch_number < 2 ^ 64
      → b'.batch_number < 2 ^ 64
      → b.transitions_root ≡ b'.transitions_root
      → (verify p codec prev b).1 ≡ true
      → (verify p codec prev' b').1 ≡ true
      → (b.batch_number ≡ b'.batch_number) ⊎ Collision p.blake3
  unfolding batch_bytes
  verify-once prev prev' b b' small small' same accepted accepted' =
      let k = verify-Checked prev b accepted in
      let k' = verify-Checked prev' b' accepted' in
      elim (same_or_collision p.blake3 (batch_bytes p codec b) (batch_bytes p codec b')
        (k.hashed ∙ same ∙ sym k'.hashed)) [
          | inl e ↦ inl (le_bytes_injective 8 b.batch_number b'.batch_number _ _ small small' e).0
          | inr found ↦ inr found
        ]
