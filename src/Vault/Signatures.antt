-- ===== src/Vault/Signatures.antt =====
-- How `verify_fulfillment` (dsm/src/vault/limbo_vault.rs) counts the signatures of a
-- multi-signature.
use dsm_decentralized_state.Base.{
  ℕ, zero, suc, ◌+◌, ◌≡◌, refl, ap, ◌∙◌, true, false, List, arith, ltb, leb, length, replicate,
  length-replicate, nat_eq, list_eq,
}
use dsm_decentralized_state.Base.Result.{ok}
use dsm_decentralized_state.State.Operation.{Bytes}
use dsm_decentralized_state.State.Model.{State, Primitives}
use dsm_decentralized_state.Vault.{LimboVault, Cryptography, multi_signature, multi_signature_proof}
use dsm_decentralized_state.Vault.Fulfill.{
  contains, count_signatures, verify_signatures, verify_condition, verify_fulfillment,
}

module _ (c : Cryptography) (keys : List Bytes) (d key sig : Bytes)
    (listed : contains key keys ≡ true) (valid : c.sphincs_verify key d sig ≡ ok true) where
  count_copies :
      (copies n : ℕ) → count_signatures c keys d (replicate copies (key, sig)) n ≡ ok (n + copies)
  unfolding count_signatures
  count_copies zero n = let same : n ≡ n + 0 = omega arith in ap ok same
  count_copies (suc copies) n =
      let shift : n + 1 + copies ≡ n + suc copies = omega arith in
      rw (listed, valid) (count_copies copies (n + 1) ∙ ap ok shift)

  copies_verify :
      (threshold : ℕ)
      → verify_signatures c keys threshold (replicate threshold (key, sig)) d ≡ ok true
  unfolding verify_signatures
  copies_verify threshold =
      let copy : record { 0 : Bytes; 1 : Bytes } = (key, sig) in
      let enough : ltb (length (replicate threshold copy)) threshold ≡ false =
        ground (arith, length-replicate threshold copy) in
      let reached : leb threshold (0 + threshold) ≡ true = ground arith in
      rw (enough, count_copies threshold 0, reached) refl

-- One valid signature of one of the listed keys fulfills a multi-signature condition with any
-- threshold: as many copies of it as the threshold asks for are accepted.
verify_fulfillment-copies :
    (p : Primitives) (c : Cryptography) (r : State) (v : LimboVault) (keys : List Bytes)
    (d key sig : Bytes) (threshold : ℕ)
    → v.fulfillment_condition ≡ multi_signature keys threshold
    → contains key keys ≡ true
    → c.sphincs_verify key d sig ≡ ok true
    → verify_fulfillment p c r (multi_signature_proof (replicate threshold (key, sig)) d) v
      ≡ ok true
unfolding verify_fulfillment verify_condition
verify_fulfillment-copies p c r v keys d key sig threshold condition listed valid =
    ap (λ m. verify_condition p c r m (multi_signature_proof (replicate threshold (key, sig)) d))
      condition
    ∙ copies_verify c keys d key sig listed valid threshold
