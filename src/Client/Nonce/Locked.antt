-- ===== src/Client/Nonce/Locked.antt =====
-- Goroutines that call `Next` of one nonce, with each Lock and Unlock of its mutex a step.
pub mod Refines
pub mod Ends
use grafain.Prelude.{ℕ, ◌+◌, ◌%◌, ◌^◌, ◌≡◌, Bool, true, false, Option, List, ◌∷◌, ◌++◌}
use grafain.Client.Query.{UserResponse}
use grafain.Client.Nonce.{Nonce, sequence_of}
use grafain.Client.Nonce.Race.{initialize}

-- Where a goroutine stands in `Next` and `Query`: what it does next, or what `Next` has returned. It
-- holds the mutex at `looking`, `storing` and `counting`, and asks for it at the three points before.
pub data Point : Type 0 where
  lock_to_look looking get_user read_result lock_to_count counting failed : Point
  lock_to_store storing : Option UserResponse → Point
  returned : ℕ → Point

-- The nonce and its mutex.
pub record Shared : Type 0 where
  pub nonce : Nonce
  pub locked : Bool

abbrev pub with_lock : Bool → Nonce → Shared
with_lock l n = record { nonce = n; locked = l }

-- A step of one goroutine. `Lock` waits until the mutex is free.
pub data LockedStep : Shared × Point → Shared × Point → Type 0 where
  locked_to_look :
      {n : Nonce} → LockedStep (with_lock false n, lock_to_look) (with_lock true n, looking)
  look_query :
      {n : Nonce}
      → initialize n ≡ true
      → LockedStep (with_lock true n, looking) (with_lock false n, get_user)
  look_cached :
      {n : Nonce}
      → initialize n ≡ false
      → LockedStep (with_lock true n, looking) (with_lock false n, lock_to_count)
  answered :
      {s : Shared} → (user : Option UserResponse) → LockedStep (s, get_user) (s, lock_to_store user)
  no_answer : {s : Shared} → LockedStep (s, get_user) (s, failed)
  locked_to_store :
      {n : Nonce} {user : Option UserResponse}
      → LockedStep (with_lock false n, lock_to_store user) (with_lock true n, storing user)
  stored :
      {n : Nonce} {user : Option UserResponse}
      → LockedStep
          (with_lock true n, storing user)
          (with_lock false (record { nonce = sequence_of user; from_query = true }), read_result)
  result_read : {s : Shared} → LockedStep (s, read_result) (s, returned s.nonce.nonce)
  locked_to_count :
      {n : Nonce} → LockedStep (with_lock false n, lock_to_count) (with_lock true n, counting)
  incremented :
      {n : Nonce}
      → LockedStep
          (with_lock true n, counting)
          (
            with_lock false (record { nonce = (n.nonce + 1) % 2 ^ 64; from_query = false }),
            returned ((n.nonce + 1) % 2 ^ 64),
          )

-- The nonce, its mutex and its goroutines.
abbrev pub LockedSystem : Type 0
LockedSystem = Shared × List Point

pub data LockedTurn : LockedSystem → LockedSystem → Type 0 where
  turn :
      {s s' : Shared} {p p' : Point} (before after : List Point)
      → LockedStep (s, p) (s', p')
      → LockedTurn (s, before ++ (p ∷ after)) (s', before ++ (p' ∷ after))

pub data LockedReach (s : LockedSystem) : LockedSystem → Type 0 where
  here : LockedReach s s
  step : {s' s'' : LockedSystem} → LockedReach s s' → LockedTurn s' s'' → LockedReach s s''
