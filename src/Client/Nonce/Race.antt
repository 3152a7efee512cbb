-- ===== src/Client/Nonce/Race.antt =====
-- Goroutines that call `Next` of one nonce, each once. `Next` tests the fields under the lock and gives
-- the lock back; `Query` and the increment take it again, and `Query` reads its result after it has
-- given the lock back. What lies between is a step of its own; in `Client.Nonce.Locked` each Lock and
-- each Unlock is one.
pub mod Safe
use grafain.Prelude.{
  ℕ, ◌+◌, ◌%◌, ◌^◌, ◌≡◌, refl, true, false, not, ◌&&◌, Bool, Option, none, some, List, [], ◌∷◌,
  ◌++◌, eqb,
}
use grafain.Client.Query.{UserResponse}
use grafain.Client.Nonce.{Nonce, new_nonce, sequence_of}

-- Where a goroutine stands in `Next`: what it does next, or what `Next` has returned.
pub data Place : Type 0 where
  start get_user increment read_result failed : Place
  store : Option UserResponse → Place
  returned : ℕ → Place

-- `initializedFromBlockchain`
unfoldable pub initialize : Nonce → Bool
initialize n = not n.from_query && eqb n.nonce 0

-- A step of one goroutine.
pub data Step : Nonce × Place → Nonce × Place → Type 0 where
  look_query : {n : Nonce} → initialize n ≡ true → Step (n, start) (n, get_user)
  look_cached : {n : Nonce} → initialize n ≡ false → Step (n, start) (n, increment)
  answered : {n : Nonce} → (user : Option UserResponse) → Step (n, get_user) (n, store user)
  no_answer : {n : Nonce} → Step (n, get_user) (n, failed)
  stored :
      {n : Nonce} {user : Option UserResponse}
      → Step (n, store user) (record { nonce = sequence_of user; from_query = true }, read_result)
  result_read : {n : Nonce} → Step (n, read_result) (n, returned n.nonce)
  incremented :
      {n : Nonce}
      → Step
          (n, increment)
          (
            record { nonce = (n.nonce + 1) % 2 ^ 64; from_query = false },
            returned ((n.nonce + 1) % 2 ^ 64),
          )

-- The nonce and its goroutines.
abbrev pub System : Type 0
System = Nonce × List Place

-- The system takes a step of one of them.
pub data Turn : System → System → Type 0 where
  turn :
      {n n' : Nonce} {p p' : Place} (before after : List Place)
      → Step (n, p) (n', p')
      → Turn (n, before ++ (p ∷ after)) (n', before ++ (p' ∷ after))

pub data Reach (s : System) : System → Type 0 where
  here : Reach s s
  step : {s' s'' : System} → Reach s s' → Turn s' s'' → Reach s s''

-- Two goroutines that start with a new nonce can both return the sequence number of the account: both
-- look before one of them has stored what it has asked for.
pub next-same_number :
    (user : Option UserResponse)
    → Reach
        (new_nonce, start ∷ start ∷ [])
        (
          record { nonce = sequence_of user; from_query = true },
          returned (sequence_of user) ∷ returned (sequence_of user) ∷ [],
        )
unfolding new_nonce initialize
next-same_number user =
    step
      (step
        (step
          (step
            (step
              (step
                (step (step here (turn [] (start ∷ []) (look_query refl)))
                  (turn (get_user ∷ []) [] (look_query refl)))
                (turn [] (get_user ∷ []) (answered user)))
              (turn (store user ∷ []) [] (answered user)))
            (turn [] (store user ∷ []) stored))
          (turn [] (store user ∷ []) result_read))
        (turn (returned (sequence_of user) ∷ []) [] stored))
      (turn (returned (sequence_of user) ∷ []) [] result_read)
