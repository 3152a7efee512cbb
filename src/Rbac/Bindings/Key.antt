-- ===== src/Rbac/Bindings/Key.antt =====
-- The key of a role binding can be read back.
use grafain.Prelude.{
  ℕ, zero, suc, ◌+◌, ◌≡◌, ap, ◌++◌, Bytes, length, take, drop, arith, length-append, length-take,
  length-drop, length-replicate, drop_all, take_all, drop-append_length, take-append_length,
}
use grafain.Weave.{Weave, make_bytes, copy}
use grafain.Rbac.Model.{RoleBinding}
use grafain.Rbac.Bindings.{build_key, new_binding}
use mathlib.Core.List.{append-nil}

drop-replicate : (k n : ℕ) → drop k (make_bytes (k + n)) ≡ make_bytes n
drop-replicate zero n = let e : zero + n ≡ n = omega arith in rw e
drop-replicate (suc k) n =
    let e : suc k + n ≡ suc (k + n) = omega arith in rw e (drop-replicate k n)

length-copy : (dst src : Bytes) → length (copy dst src) ≡ length dst
unfolding copy
length-copy dst src = omega (
  arith,
  length-append (take (length dst) src) (drop (length src) dst),
  length-take (length dst) src,
  length-drop (length src) dst,
)

-- What fills the slice exactly replaces it.
pub copy_full : (dst src : Bytes) → length src ≡ length dst → copy dst src ≡ src
unfolding copy
copy_full dst src h =
    rw (take_all (length dst) src (omega arith), drop_all (length src) dst (omega arith))
      (append-nil src)

copy_front : (n : ℕ) (src : Bytes) → copy (make_bytes (length src + n)) src ≡ src ++ make_bytes n
unfolding copy
copy_front n src = rw (
  take_all (length (make_bytes (length src + n))) src
      (omega (arith, length-replicate {A = ℕ} (length src + n) 0)),
  drop-replicate (length src) n,
)

module _ ⦃W : Weave⦄ where
  -- The key of every binding is an address and eight more bytes long.
  pub length-build_key : (b : RoleBinding) → length (build_key b) ≡ W.address_length + 8
  unfolding build_key
  length-build_key b =
      let x = copy (make_bytes (W.address_length + 8)) b.signature in
      omega (
        arith,
        length-append (take W.address_length x) (copy (drop W.address_length x) b.role_id),
        length-take W.address_length x,
        length-drop W.address_length x,
        length-copy (drop W.address_length x) b.role_id,
        length-copy (make_bytes (W.address_length + 8)) b.signature,
        length-replicate {A = ℕ} (W.address_length + 8) 0,
      )

  -- An address of the right length and an eight byte role id are the two parts of the key.
  pub build_key-splits :
      (role_id signature : Bytes)
      → length signature ≡ W.address_length
      → length role_id ≡ 8
      → build_key (new_binding role_id signature) ≡ signature ++ role_id
  unfolding build_key new_binding
  build_key-splits role_id signature h k =
      rw
        (
          ← h,
          copy_front 8 signature,
          take-append_length signature (make_bytes 8),
          drop-append_length signature (make_bytes 8),
        )
        (ap (λ (r : Bytes). signature ++ r) (copy_full (make_bytes 8) role_id k))
