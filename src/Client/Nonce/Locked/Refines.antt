-- ===== src/Client/Nonce/Locked/Refines.antt =====
-- With the mutex, a run of goroutines is a run of the atomic steps of `Client.Nonce.Race`: what a goroutine
-- does between Lock and Unlock no other one sees.
use grafain.Prelude.{
  ℕ, ◌≡◌, ◌⊎◌, inl, inr, refl, sym, ap, ◌∙◌, subst, List, [], ◌∷◌, ◌++◌, map, replicate, zero, suc,
}
use grafain.Client.Nonce.{Nonce}
use grafain.Client.Nonce.Race as Atomic
use grafain.Client.Nonce.Race.{Place, Step, System, Turn, Reach}
use grafain.Client.Nonce.Race.Safe.{starting}
use grafain.Client.Nonce.Locked.{
  Point, lock_to_look, looking, get_user, read_result, lock_to_count, counting, failed,
  lock_to_store, storing, returned, Shared, LockedStep, locked_to_look, look_query, look_cached,
  answered, no_answer, locked_to_store, stored, result_read, locked_to_count, incremented,
  LockedSystem, LockedTurn, turn, LockedReach, here, step,
}

-- where a goroutine stands, but for the mutex
abbrev pub place : Point → Place
place lock_to_look = Atomic.start
place looking = Atomic.start
place get_user = Atomic.get_user
place (lock_to_store user) = Atomic.store user
place (storing user) = Atomic.store user
place read_result = Atomic.read_result
place lock_to_count = Atomic.increment
place counting = Atomic.increment
place failed = Atomic.failed
place (returned v) = Atomic.returned v

abbrev pub system : LockedSystem → System
system (s, ps) = (s.nonce, map place ps)

-- a step is an atomic step, or moves the mutex only
seen_at_step :
    {s s' : Shared} {p p' : Point}
    → LockedStep (s, p) (s', p')
    → Step (s.nonce, place p) (s'.nonce, place p') ⊎ ((s.nonce ≡ s'.nonce) × (place p ≡ place p'))
seen_at_step locked_to_look = inr (refl, refl)
seen_at_step (look_query h) = inl (Atomic.look_query h)
seen_at_step (look_cached h) = inl (Atomic.look_cached h)
seen_at_step (answered u) = inl (Atomic.answered u)
seen_at_step no_answer = inl Atomic.no_answer
seen_at_step locked_to_store = inr (refl, refl)
seen_at_step stored = inl Atomic.stored
seen_at_step result_read = inl Atomic.result_read
seen_at_step locked_to_count = inr (refl, refl)
seen_at_step incremented = inl Atomic.incremented

map_middle :
    (before after : List Point) (p : Point)
    → map place (before ++ (p ∷ after)) ≡ map place before ++ (place p ∷ map place after)
map_middle [] after p = refl
map_middle (q ∷ before) after p = ap (λ (ps : List Place). place q ∷ ps) (map_middle before after p)

seen_without_lock :
    {s s' : LockedSystem} → LockedTurn s s' → Turn (system s) (system s') ⊎ (system s ≡ system s')
seen_without_lock (turn {s = s} {s' = s'} {p = p} {p' = p'} before after st) =
    elim (seen_at_step st) [
      | inl moved ↦ inl (
          subst (λ ps. Turn (s.nonce, ps) (s'.nonce, map place (before ++ (p' ∷ after))))
            (sym (map_middle before after p))
            (subst
              (λ ps. Turn (s.nonce, map place before ++ (place p ∷ map place after)) (s'.nonce, ps))
              (sym (map_middle before after p'))
              (Atomic.turn (map place before) (map place after) moved)))
      | inr (same, same') ↦ inr (
          ap (λ (n : Nonce). (n, map place (before ++ (p ∷ after)))) same
          ∙ ap (λ (ps : List Place). (s'.nonce, ps))
              (map_middle before after p
                ∙ ap (λ (q : Place). map place before ++ (q ∷ map place after)) same'
                ∙ sym (map_middle before after p')))
    ]

-- What the goroutines reach with the mutex they reach with atomic steps.
pub atomic_run : {s s' : LockedSystem} → LockedReach s s' → Reach (system s) (system s')
atomic_run here = Atomic.here
atomic_run {s = s} (step r t) = elim (seen_without_lock t) [
  | inl moved ↦ Atomic.step (atomic_run r) moved
  | inr same ↦ subst (λ x. Reach (system s) x) same (atomic_run r)
]

pub place-waiting : (k : ℕ) → map place (replicate k lock_to_look) ≡ starting k
place-waiting zero = refl
place-waiting (suc k) = ap (λ (ps : List Place). Atomic.start ∷ ps) (place-waiting k)
