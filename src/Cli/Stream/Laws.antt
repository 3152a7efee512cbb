-- ===== src/Cli/Stream/Laws.antt =====
-- What `writeTx` has written `readTx` reads, however the stream is cut into chunks behind the header.
use mathlib.Core.List.{append_assoc, append-nil}
use grafain.Prelude.{
  ℕ, zero, suc, ◌+◌, ◌-◌, ◌%◌, ◌^◌, ◌<◌, ◌≤◌, ◌≡◌, ◌≢◌, refl, sym, ap, ◌∙◌, subst, inl, inr, Bool,
  true, false, Option, none, some, List, [], ◌∷◌, ◌++◌, Bytes, length, take, drop, leb, arith,
  Bool-cases, length-append, take_all, drop_all, take-append_length, drop-append_length,
}
use grafain.Prelude.BigEndian.{put_uint32, uint32-put_uint32, length-put_uint32}
use grafain.Weave.{make_bytes, copy}
use grafain.Cli.Stream.{read, read_full, read_all, write_tx, read_body, read_header, read_tx}

take-append_le : (n : ℕ) (s t : Bytes) → n ≤ length s → take n (s ++ t) ≡ take n s
take-append_le zero s t h = refl
take-append_le (suc n) [] t h = absurd (omega arith)
take-append_le (suc n) (c ∷ s) t h = ap (λ (r : Bytes). c ∷ r) (take-append_le n s t (omega arith))

drop-append_le : (n : ℕ) (s t : Bytes) → n ≤ length s → drop n (s ++ t) ≡ drop n s ++ t
drop-append_le zero s t h = refl
drop-append_le (suc n) [] t h = absurd (omega arith)
drop-append_le (suc n) (c ∷ s) t h = drop-append_le n s t (omega arith)

take-append_more :
    (n : ℕ) (s t : Bytes) → length s ≤ n → take n (s ++ t) ≡ s ++ take (n - length s) t
take-append_more n [] t h = ap (λ (m : ℕ). take m t) {x = n} {y = n - 0} (omega arith)
take-append_more zero (c ∷ s) t h = absurd (omega arith)
take-append_more (suc n) (c ∷ s) t h =
    let less : suc n - suc (length s) ≡ n - length s = omega arith in
    rw less (ap (λ (r : Bytes). c ∷ r) (take-append_more n s t (omega arith)))

drop-append_more : (n : ℕ) (s t : Bytes) → length s ≤ n → drop n (s ++ t) ≡ drop (n - length s) t
drop-append_more n [] t h = ap (λ (m : ℕ). drop m t) {x = n} {y = n - 0} (omega arith)
drop-append_more zero (c ∷ s) t h = absurd (omega arith)
drop-append_more (suc n) (c ∷ s) t h =
    let less : suc n - suc (length s) ≡ n - length s = omega arith in
    rw less (drop-append_more n s t (omega arith))

-- `io.ReadFull` gets what stands first in the stream, if there is enough.
read_full-enough :
    (n : ℕ) (r : List Bytes)
    → n ≤ length (read_all r)
    → ((read_full n r).0 ≡ some (take n (read_all r)))
      × (read_all (read_full n r).1 ≡ drop n (read_all r))
unfolding read_full read_all
read_full-enough zero [] h = (refl, refl)
read_full-enough (suc n) [] h = absurd (omega arith)
read_full-enough zero (c ∷ cs) h = (refl, refl)
read_full-enough (suc n) (c ∷ cs) h = elim (Bool-cases (leb (length c) (suc n))) [
  | inl whole ↦
      let (rest, left) =
        read_full-enough (suc n - length c) cs
          (omega (arith, length-append c (read_all cs), le_of_leb (length c) (suc n) whole)) in
      let small = le_of_leb (length c) (suc n) whole in
      (
        ground (arith, rest, take-append_more (suc n) c (read_all cs) small),
        ground (arith, left, drop-append_more (suc n) c (read_all cs) small),
      )
  | inr part ↦
      let large = le_of_not_leb (length c) (suc n) part in
      (
        ground (arith, take-append_le (suc n) c (read_all cs) large),
        ground (arith, drop-append_le (suc n) c (read_all cs) large),
      )
]
  where
    le_of_leb : (a b : ℕ) → leb a b ≡ true → a ≤ b
    le_of_leb a b h = ground arith

    le_of_not_leb : (a b : ℕ) → leb a b ≡ false → b ≤ a
    le_of_not_leb a b h = ground arith

-- One `Read` of a long enough chunk, for the first four bytes.
read-first :
    (first : Bytes) (chunks : List Bytes)
    → 4 ≤ length first
    → (r : List Bytes) × (read 4 (first ∷ chunks) ≡ some (take 4 (read_all (first ∷ chunks)), r))
      × (read_all r ≡ drop 4 (read_all (first ∷ chunks)))
unfolding read read_all
read-first first chunks h = elim (Bool-cases (leb (length first) 4)) [
  | inl exact ↦
      let four : length first ≤ 4 = ground arith in
      (
        chunks,
        ground (arith, take-append_le 4 first (read_all chunks) h),
        ground (arith, drop-append_le 4 first (read_all chunks) h, drop_all 4 first four),
      )
  | inr more ↦ (
    drop 4 first ∷ chunks,
    ground (arith, take-append_le 4 first (read_all chunks) h),
    sym (drop-append_le 4 first (read_all chunks) h),
  )
]

copy_header : (s : Bytes) → length s ≡ 4 → copy (make_bytes 4) s ≡ s
unfolding copy
copy_header s h = rw (h, take_all 4 s (omega arith)) (append-nil s)

take_header : (n : ℕ) (t : Bytes) → take 4 (put_uint32 n ++ t) ≡ put_uint32 n
take_header n t =
    subst (λ (m : ℕ). take m (put_uint32 n ++ t) ≡ put_uint32 n) (length-put_uint32 n)
      (take-append_length (put_uint32 n) t)

drop_header : (n : ℕ) (t : Bytes) → drop 4 (put_uint32 n ++ t) ≡ t
drop_header n t =
    subst (λ (m : ℕ). drop m (put_uint32 n ++ t) ≡ t) (length-put_uint32 n)
      (drop-append_length (put_uint32 n) t)

-- A write to a buffer in memory.
unfoldable pub append_to : Bytes → Bytes → (ℕ × Bool) × Bytes
append_to b buffer = ((length b, true), buffer ++ b)

module _ {T : Type 0} (marshal : T → Option Bytes) (unmarshal : Bytes → Option T) where
  -- `writeTx` writes four bytes of length and the transaction.
  pub write_tx-frame :
      (tx : T) {b : Bytes}
      → marshal tx ≡ some b
      → write_tx append_to marshal tx []
        ≡ ((4 + length b, true), put_uint32 (length b % 2 ^ 32) ++ b)
  unfolding write_tx append_to
  write_tx-frame tx h = ground arith

  read_header-frame :
      (first : Bytes) (chunks : List Bytes) (size : ℕ) (body : Bytes)
      → 4 ≤ length first
      → size < 2 ^ 32
      → read_all (first ∷ chunks) ≡ put_uint32 size ++ body
      → (r : List Bytes) × (read_all r ≡ body)
        × (read_header unmarshal (first ∷ chunks) ≡ read_body unmarshal size r)
  unfolding read_header
  read_header-frame first chunks size body long small whole =
      let (r, got, left) = read-first first chunks long in
      let header = ap (take 4) whole ∙ take_header size body in
      (
        r,
        left ∙ ap (drop 4) whole ∙ drop_header size body,
        ground (
          arith,
          got,
          header,
          copy_header (put_uint32 size) (length-put_uint32 size),
          uint32-put_uint32 size small,
        ),
      )

  read_body-enough :
      (tx : T) (b rest : Bytes) (r : List Bytes)
      → unmarshal b ≡ some tx
      → length b + 4 < 2 ^ 32
      → read_all r ≡ b ++ rest
      → ((read_body unmarshal (length b) r).0 ≡ some (tx, 4 + length b))
        × (read_all (read_body unmarshal (length b) r).1 ≡ rest)
  unfolding read_body
  read_body-enough tx b rest r reads small whole =
      let (raw, left) =
        read_full-enough (length b) r (omega (arith, ap length whole, length-append b rest)) in
      let body =
        raw
        ∙ ap (λ (s : Bytes). some (take (length b) s)) whole
        ∙ ap some (take-append_length b rest) in
      let size : (length b + 4) % 2 ^ 32 ≡ 4 + length b = omega arith in
      (ground (arith, body, size), left ∙ ap (drop (length b)) whole ∙ drop-append_length b rest)

  read_tx-mode :
      (first : Bytes) (chunks : List Bytes) (mode : Option Bool)
      → mode ≢ some false
      → read_tx unmarshal mode (first ∷ chunks) ≡ read_header unmarshal (first ∷ chunks)
  unfolding read_tx
  read_tx-mode first chunks none h = refl
  read_tx-mode first chunks (some true) h = refl
  read_tx-mode first chunks (some false) h = absurd (h refl)

  -- A transaction below 4 GB that was written to a pipe is read back, and what follows it in the
  -- stream is left, if the first read gets the whole header.
  pub read_tx-write_tx :
      (tx : T) {b : Bytes} (first : Bytes) (chunks : List Bytes) (rest : Bytes) (mode : Option Bool)
      → mode ≢ some false
      → marshal tx ≡ some b
      → unmarshal b ≡ some tx
      → length b + 4 < 2 ^ 32
      → 4 ≤ length first
      → read_all (first ∷ chunks) ≡ (write_tx append_to marshal tx []).1 ++ rest
      → ((read_tx unmarshal mode (first ∷ chunks)).0
          ≡ some (tx, (write_tx append_to marshal tx []).0.0))
        × (read_all (read_tx unmarshal mode (first ∷ chunks)).1 ≡ rest)
  read_tx-write_tx tx {b} first chunks rest mode piped written reads small header whole =
      let frame = write_tx-frame tx written in
      let size : length b % 2 ^ 32 ≡ length b = omega arith in
      let stream : read_all (first ∷ chunks) ≡ put_uint32 (length b) ++ (b ++ rest) =
        whole
        ∙ ap (λ (x : (ℕ × Bool) × Bytes). x.1 ++ rest) frame
        ∙ append_assoc (put_uint32 (length b % 2 ^ 32)) b rest
        ∙ ap (λ (m : ℕ). put_uint32 m ++ (b ++ rest)) size in
      let (r, left, header') =
        read_header-frame first chunks (length b) (b ++ rest) header (omega arith) stream in
      let (out, after) = read_body-enough tx b rest r reads small left in
      (
        ground (arith, read_tx-mode first chunks mode piped, header', out, frame),
        ground (arith, read_tx-mode first chunks mode piped, header', after),
      )
