-- ===== src/Client/Nonce.antt =====
-- `Nonce` of pkg/client/base_client.go: the cached sequence number of an account. The counter is an
-- int64 as a bit pattern, which stands for a negative number from 2 ^ 63 on; the answer of `GetUser` comes in with each call.
pub mod Race
pub mod Locked
use grafain.Prelude.{
  ℕ, ◌+◌, ◌%◌, ◌^◌, ◌<◌, ◌≡◌, refl, ap, Bool, true, false, not, ◌&&◌, Option, none, some, List, [],
  ◌∷◌, length, eqb, arith, if◌then◌else◌,
}
use grafain.Weave.{Result, ok, err}
use grafain.Client.Query.{UserResponse}

-- `Nonce`, without its client and address
pub record Nonce : Type 0 where
  pub nonce : ℕ
  pub from_query : Bool

-- `NewNonce`
unfoldable pub new_nonce : Nonce
new_nonce = record { nonce = 0; from_query = false }

-- `Query`
unfoldable pub query : Result (Option UserResponse) → Nonce → Result ℕ × Nonce
query (err e) n = (err e, n)
query (ok (some user)) n =
    (ok user.user_data.sequence, record { nonce = user.user_data.sequence; from_query = true })
query (ok none) n = (ok 0, record { nonce = 0; from_query = true })

-- `Next`
unfoldable pub next : Result (Option UserResponse) → Nonce → Result ℕ × Nonce
next answer n = if not n.from_query && eqb n.nonce 0 then query answer n else (
  ok ((n.nonce + 1) % 2 ^ 64),
  record { nonce = (n.nonce + 1) % 2 ^ 64; from_query = false },
)

-- Calls of `Next` one after the other, each with what `GetUser` would answer then.
unfoldable pub next_all : List (Result (Option UserResponse)) → Nonce → List (Result ℕ)
next_all [] n = []
next_all (answer ∷ answers) n = let (r, n') = next answer n in r ∷ next_all answers n'

-- the sequence number of an account
unfoldable pub sequence_of : Option UserResponse → ℕ
sequence_of none = 0
sequence_of (some user) = user.user_data.sequence

-- k successive numbers
unfoldable pub counted : ℕ → List (Result (Option UserResponse)) → List (Result ℕ)
counted s [] = []
counted s (a ∷ answers) = ok s ∷ counted (s + 1) answers

next_all-from :
    (answers : List (Result (Option UserResponse))) (m : ℕ) (q : Bool)
    → (not q && eqb m 0) ≡ false
    → m + length answers < 2 ^ 64
    → next_all answers (record { nonce = m; from_query = q }) ≡ counted (m + 1) answers
unfolding next_all next counted
next_all-from [] m q h b = refl
next_all-from (a ∷ answers) m q h b =
    let fits : (m + 1) % 2 ^ 64 ≡ m + 1 = omega arith in
    rw (h, fits)
      (ap (λ (l : List (Result ℕ)). ok (m + 1) ∷ l)
        (next_all-from answers (m + 1) false (ground arith) (omega arith)))

-- Calls of `Next` one after the other on a new nonce ask the node once, and then count up from the
-- account's sequence number, as long as the numbers stay below 2 ^ 63, where an int64 becomes
-- negative.
pub next_all-counts :
    (user : Option UserResponse) (answers : List (Result (Option UserResponse)))
    → sequence_of user + length answers < 2 ^ 63
    → next_all (ok user ∷ answers) new_nonce ≡ counted (sequence_of user) (ok user ∷ answers)
unfolding next_all next query counted new_nonce sequence_of
next_all-counts none answers b =
    ap (λ (l : List (Result ℕ)). ok 0 ∷ l) (next_all-from answers 0 true refl (omega arith))
next_all-counts (some user) answers b =
    ap (λ (l : List (Result ℕ)). ok user.user_data.sequence ∷ l)
      (next_all-from answers user.user_data.sequence true refl (omega arith))
