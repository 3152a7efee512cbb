-- ===== src/Tests/Race.antt =====
-- Goroutines that share a nonce, and the page of cmd/grafainboard.
use grafain.Prelude.{
  ◌+◌, ◌*◌, ◌⊎◌, ◌<◌, ◌≤◌, ◌≡◌, ◌≢◌, ◌↔◌, refl, true, false, some, none, List, [], ◌∷◌, Bytes,
  codes, All, length, map, arith,
}
use grafain.Weave.{ok}
use grafain.Artifact.Model.{Artifact}
use grafain.Client.Nonce.{Nonce}
use grafain.Client.Nonce.Race.{
  start, returned, initialize, Reach, here, step, turn, look_cached, incremented,
}
use grafain.Client.Nonce.Locked as Locked
use grafain.Client.Nonce.Locked.{
  lock_to_look, looking, with_lock, locked_to_look, LockedSystem, LockedTurn, LockedReach,
}
use grafain.Client.Nonce.Locked.Refines.{system}
use grafain.Client.Nonce.Locked.Ends.{Ended, steps, waiting, next-Ended}
use grafain.Client.Nonce.Race.Safe.{Distinct, results, starting, next-Distinct}
use grafain.Board.{KeyVal, key_vals}
use grafain.Board.Laws.{model_of, key_vals-images}

abbrev five : Nonce
five = record { nonce = 5; from_query = false }

one_called :
    Reach (five, starting 2) (record { nonce = 6; from_query = false }, returned 6 ∷ start ∷ [])
unfolding initialize
one_called =
    step (step here (turn [] (start ∷ []) (look_cached refl))) (turn [] (start ∷ []) incremented)

five_known : initialize five ≡ false
unfolding initialize
five_known = refl

next-Distinct_example :
    Distinct (results (returned 6 ∷ start ∷ []))
    × All (λ v. (5 < v) × (v ≤ 6)) (results (returned 6 ∷ start ∷ []))
    × (6 ≡ 5 + length (results (returned 6 ∷ start ∷ [])))
next-Distinct_example = next-Distinct five 2 five_known (omega arith) one_called

two_looking :
    LockedReach (with_lock false five, waiting 2) (with_lock true five, looking ∷ lock_to_look ∷ [])
two_looking = Locked.step Locked.here (Locked.turn [] (lock_to_look ∷ []) locked_to_look)

next-Ended_example :
    (steps two_looking ≤ 6 * 2)
    × (All Ended (looking ∷ lock_to_look ∷ [])
        ⊎ ((s' : LockedSystem) × LockedTurn (with_lock true five, looking ∷ lock_to_look ∷ []) s'))
    × Reach (five, starting 2) (system (with_lock true five, looking ∷ lock_to_look ∷ []))
next-Ended_example = next-Ended five 2 two_looking

abbrev nginx : Artifact
nginx = record {
  metadata = none;
  owner = codes "alice";
  image = codes "nginx";
  checksum = codes "abc";
}

abbrev stored : List (Bytes × Bytes × Artifact)
stored = (codes "nginx", [], nginx) ∷ []

no_colon : All (λ c. c ≢ b':') (codes "artfcts")
no_colon = (
  λ e. absurd (omega arith),
  (
    λ e. absurd (omega arith),
    (
      λ e. absurd (omega arith),
      (
        λ e. absurd (omega arith),
        (λ e. absurd (omega arith), (λ e. absurd (omega arith), (λ e. absurd (omega arith), tt))),
      ),
    ),
  ),
)

key_vals-images_example :
    ((kvs : List KeyVal) × (key_vals (λ v. ok nginx) (map (model_of (codes "artfcts")) stored)
        ≡ some kvs))
    ↔ All (λ m. length m.0 ≡ 8) stored
key_vals-images_example =
    key_vals-images (λ v. ok nginx) (codes "artfcts") no_colon stored (refl, tt)
