-- ===== src/Client/Artifacts/Signing.antt =====
-- Several signers of one transaction, by SignTx one after the other. `sign` is `sigs.SignTx` of weave,
-- which signs what GetSignBytes of pkg/app/tx.go gives.
use mathlib.Core.List.{append_assoc, append-nil}
use grafain.Prelude.{
  ℕ, ◌≡◌, sym, ap, ◌∙◌, inl, inr, Option, none, some, List, [], ◌∷◌, ◌++◌, Bytes, arith,
}
use grafain.Weave.{Error, Result, ok, Result-cases}
use grafain.App.Tx.{Tx, get_sign_bytes}
use grafain.App.Tx.Laws.{get_sign_bytes-keeps}
use grafain.Client.Artifacts.{sign_tx}

module _ {P S K : Type 0} (marshal : Tx P S → Result Bytes)
    (sign : K → Tx P S → Bytes → ℕ → Result S) (chain_id : Bytes) where
  -- A signature depends on the transaction by the bytes to sign only.
  abbrev pub SignsBytes : Type 0
  SignsBytes =
      (k : K) (tx tx' : Tx P S) (n : ℕ)
      → (get_sign_bytes marshal tx).0 ≡ (get_sign_bytes marshal tx').0
      → sign k tx chain_id n ≡ sign k tx' chain_id n

  -- The calls for a list of keys with their nonces, up to the first error.
  abbrev pub sign_all : List (K × ℕ) → Tx P S → Option Error × Tx P S
  sign_all [] tx = (none, tx)
  sign_all ((k, n) ∷ keys) tx =
      let (failure, tx') = sign_tx (sign k) tx chain_id n in
      elim failure [ some e ↦ (some e, tx') | none ↦ sign_all keys tx' ]

  -- The signatures of these keys, of one transaction.
  pub data SignedBy (tx : Tx P S) : List (K × ℕ) → List S → Type 0 where
    no_keys : SignedBy tx [] []
    signed_by :
        {k : K} {n : ℕ} {sig : S} {keys : List (K × ℕ)} {sigs : List S}
        → sign k tx chain_id n ≡ ok sig
        → SignedBy tx keys sigs
        → SignedBy tx ((k, n) ∷ keys) (sig ∷ sigs)

  -- Where a signature depends on the bytes to sign only, a sequence of SignTx that goes well appends one
  -- signature for each key, in their order, changes nothing else, and each of them, also one that was made
  -- before the others, is the signature of the transaction as it is in the end.
  pub sign_all-SignedBy :
      SignsBytes
      → (keys : List (K × ℕ)) (tx tx' : Tx P S) → sign_all keys tx ≡ (none, tx')
      → (sigs : List S) × (tx' ≡ record tx { signatures = tx.signatures ++ sigs })
        × SignedBy tx' keys sigs
  unfolding sign_tx
  sign_all-SignedBy same [] tx tx' e = (
    [],
    sym (ap (λ (r : Option Error × Tx P S). r.1) e)
        ∙ ap (λ (l : List S). record tx { signatures = l }) (sym (append-nil tx.signatures)),
    no_keys,
  )
  sign_all-SignedBy same ((k, n) ∷ keys) tx tx' e = elim (Result-cases (sign k tx chain_id n)) [
    | inr (x, bad) ↦ absurd (ground (arith, ap (λ (r : Option Error × Tx P S). r.0) e, bad))
    | inl (sig, good) ↦
        let next : Tx P S = record tx { signatures = tx.signatures ++ (sig ∷ []) } in
        let (sigs, whole, signed) =
          sign_all-SignedBy same keys next tx' (ground (arith, e, good)) in
        let all = tx.signatures ++ (sig ∷ sigs) in
        let whole' : tx' ≡ record tx { signatures = all } =
          whole
          ∙ ap (λ (l : List S). record tx { signatures = l })
              (append_assoc tx.signatures (sig ∷ []) sigs) in
        let bytes =
          ap (λ (t : Tx P S). (get_sign_bytes marshal t).0) whole'
          ∙ (get_sign_bytes-keeps marshal tx all).1 in
        (sig ∷ sigs, whole', signed_by (same k tx' tx n bytes ∙ good) signed)
  ]
