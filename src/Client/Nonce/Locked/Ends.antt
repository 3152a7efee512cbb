-- ===== src/Client/Nonce/Locked/Ends.antt =====
-- Calls of Next that share a nonce end, whoever holds its mutex.
use grafain.Prelude.{
  ℕ, ◌+◌, ◌*◌, ◌<◌, ◌≤◌, ◌≡◌, ◌⊎◌, inl, inr, refl, subst, true, false, none, List, [], ◌∷◌, ◌++◌,
  All, arith, zero, suc, Bool, Bool-cases, replicate,
}
use grafain.Client.Nonce.{Nonce}
use grafain.Client.Nonce.Race.{initialize, Reach}
use grafain.Client.Nonce.Locked.Refines.{system, atomic_run, place-waiting}
use grafain.Client.Nonce.Race.Safe.{starting}
use grafain.Client.Nonce.Locked.{
  Point, lock_to_look, looking, get_user, read_result, lock_to_count, counting, failed,
  lock_to_store, storing, returned, Shared, with_lock, LockedStep, locked_to_look, look_query,
  look_cached, answered, no_answer, locked_to_store, stored, result_read, locked_to_count,
  incremented, LockedSystem, LockedTurn, turn, LockedReach, here, step,
}

-- a goroutine whose call has returned
pub data Ended : Point → Type 0 where
  with_number : {v : ℕ} → Ended (returned v)
  with_error : Ended failed

-- the most steps that a goroutine has before it
abbrev pub left : Point → ℕ
left lock_to_look = 6
left looking = 5
left get_user = 4
left (lock_to_store user) = 3
left (storing user) = 2
left read_result = 1
left lock_to_count = 2
left counting = 1
left failed = 0
left (returned v) = 0

-- 1 for a goroutine that holds the mutex
abbrev holds : Point → ℕ
holds lock_to_look = 0
holds looking = 1
holds get_user = 0
holds (lock_to_store user) = 0
holds (storing user) = 1
holds read_result = 0
holds lock_to_count = 0
holds counting = 1
holds failed = 0
holds (returned v) = 0

abbrev total : (Point → ℕ) → List Point → ℕ
total f [] = 0
total f (p ∷ ps) = f p + total f ps

abbrev pub steps : {s s' : LockedSystem} → LockedReach s s' → ℕ
steps here = 0
steps (step r t) = steps r + 1

-- k goroutines that have not begun
abbrev pub waiting : ℕ → List Point
waiting k = replicate k lock_to_look

total-append : (f : Point → ℕ) (ps qs : List Point) → total f (ps ++ qs) ≡ total f ps + total f qs
total-append f [] qs = omega arith
total-append f (p ∷ ps) qs = omega (arith, total-append f ps qs)

left-waiting : (k : ℕ) → total left (waiting k) ≡ 6 * k
left-waiting zero = omega arith
left-waiting (suc k) = omega (arith, left-waiting k)

holds-waiting : (k : ℕ) → total holds (waiting k) ≡ 0
holds-waiting zero = omega arith
holds-waiting (suc k) = omega (arith, holds-waiting k)

left-LockedStep : {s s' : Shared} {p p' : Point} → LockedStep (s, p) (s', p') → left p' < left p
left-LockedStep locked_to_look = omega arith
left-LockedStep (look_query h) = omega arith
left-LockedStep (look_cached h) = omega arith
left-LockedStep (answered u) = omega arith
left-LockedStep no_answer = omega arith
left-LockedStep locked_to_store = omega arith
left-LockedStep stored = omega arith
left-LockedStep result_read = omega arith
left-LockedStep locked_to_count = omega arith
left-LockedStep incremented = omega arith

left-LockedTurn : {s s' : LockedSystem} → LockedTurn s s' → total left s'.1 < total left s.1
left-LockedTurn (turn {p = p} {p' = p'} before after st) = omega (
  arith,
  left-LockedStep st,
  total-append left before (p ∷ after),
  total-append left before (p' ∷ after),
)

left-LockedReach :
    {s s' : LockedSystem} → (r : LockedReach s s') → steps r + total left s'.1 ≤ total left s.1
left-LockedReach here = omega arith
left-LockedReach (step r t) = omega (arith, left-LockedReach r, left-LockedTurn t)

abbrev bit : Bool → ℕ
bit true = 1
bit false = 0

holds-LockedStep :
    {s s' : Shared} {p p' : Point}
    → LockedStep (s, p) (s', p')
    → holds p' + bit s.locked ≡ holds p + bit s'.locked
holds-LockedStep locked_to_look = omega arith
holds-LockedStep (look_query h) = omega arith
holds-LockedStep (look_cached h) = omega arith
holds-LockedStep (answered u) = omega arith
holds-LockedStep no_answer = omega arith
holds-LockedStep locked_to_store = omega arith
holds-LockedStep stored = omega arith
holds-LockedStep result_read = omega arith
holds-LockedStep locked_to_count = omega arith
holds-LockedStep incremented = omega arith

-- The mutex is locked exactly while one goroutine holds it.
abbrev Held : LockedSystem → Type 0
Held s = total holds s.1 ≡ bit s.0.locked

Held-LockedTurn : {s s' : LockedSystem} → LockedTurn s s' → Held s → Held s'
Held-LockedTurn (turn {p = p} {p' = p'} before after st) held = omega (
  arith,
  held,
  holds-LockedStep st,
  total-append holds before (p ∷ after),
  total-append holds before (p' ∷ after),
)

Held-LockedReach : {s s' : LockedSystem} → LockedReach s s' → Held s → Held s'
Held-LockedReach here held = held
Held-LockedReach (step r t) held = Held-LockedTurn t (Held-LockedReach r held)

-- one more goroutine does not block the others
behind :
    (q : Point) {s s' : Shared} {ps ps' : List Point}
    → LockedTurn (s, ps) (s', ps')
    → LockedTurn (s, q ∷ ps) (s', q ∷ ps')
behind q (turn before after st) = turn (q ∷ before) after st

abbrev CanMove : Shared → Point → Type 0
CanMove s p = (s' : Shared) × (p' : Point) × LockedStep (s, p) (s', p')

look-CanMove : (n : Nonce) → CanMove (with_lock true n) looking
look-CanMove n = elim (Bool-cases (initialize n)) [
  | inl h ↦ (_, _, look_query h)
  | inr h ↦ (_, _, look_cached h)
]

-- a goroutine with the mutex is never blocked
holder-CanMove : (n : Nonce) (p : Point) → CanMove (with_lock true n) p ⊎ (holds p ≡ 0)
holder-CanMove n looking = inl (look-CanMove n)
holder-CanMove n (storing user) = inl (_, _, stored)
holder-CanMove n counting = inl (_, _, incremented)
holder-CanMove n lock_to_look = inr refl
holder-CanMove n get_user = inr refl
holder-CanMove n (lock_to_store user) = inr refl
holder-CanMove n read_result = inr refl
holder-CanMove n lock_to_count = inr refl
holder-CanMove n failed = inr refl
holder-CanMove n (returned v) = inr refl

-- nor is one without it while the mutex is free
free-CanMove : (n : Nonce) (p : Point) → holds p ≡ 0 → Ended p ⊎ CanMove (with_lock false n) p
free-CanMove n looking h = absurd (omega arith)
free-CanMove n (storing user) h = absurd (omega arith)
free-CanMove n counting h = absurd (omega arith)
free-CanMove n lock_to_look h = inr (_, _, locked_to_look)
free-CanMove n get_user h = inr (_, _, answered none)
free-CanMove n (lock_to_store user) h = inr (_, _, locked_to_store)
free-CanMove n read_result h = inr (_, _, result_read)
free-CanMove n lock_to_count h = inr (_, _, locked_to_count)
free-CanMove n failed h = inl with_error
free-CanMove n (returned v) h = inl with_number

-- the mutex is locked: the goroutine that holds it can move
locked_progress :
    (n : Nonce) (ps : List Point)
    → total holds ps ≡ 1
    → (s' : LockedSystem) × LockedTurn (with_lock true n, ps) s'
locked_progress n [] h = absurd (omega arith)
locked_progress n (p ∷ ps) h = elim (holder-CanMove n p) [
  | inl (s', p', st) ↦ (_, turn [] ps st)
  | inr free ↦ let (s', t) = locked_progress n ps (omega (arith, free)) in (_, behind p t)
]

-- the mutex is free: all have returned, or one can move
free_progress :
    (n : Nonce) (ps : List Point)
    → total holds ps ≡ 0
    → All Ended ps ⊎ ((s' : LockedSystem) × LockedTurn (with_lock false n, ps) s')
free_progress n [] h = inl tt
free_progress n (p ∷ ps) h = elim (free-CanMove n p (omega arith)) [
  | inr (s', p', st) ↦ inr (_, turn [] ps st)
  | inl e ↦ elim (free_progress n ps (omega arith)) [
    | inl es ↦ inl (e, es)
    | inr (s', t) ↦ inr (_, behind p t)
  ]
]

progress :
    (n : Nonce) (l : Bool) (ps : List Point)
    → Held (with_lock l n, ps)
    → All Ended ps ⊎ ((s' : LockedSystem) × LockedTurn (with_lock l n, ps) s')
progress n true ps held = inr (locked_progress n ps held)
progress n false ps held = free_progress n ps held

-- Where k goroutines call Next once each, with the mutex free at the start, no run has more than six
-- steps for each of them, the mutex counted, and as long as some call has not returned there is a
-- goroutine that can take a step: no call keeps the mutex, and none waits for a mutex that is never
-- unlocked. What the run reaches is also reached by goroutines whose critical sections are single
-- steps.
pub next-Ended :
    (n : Nonce) (k : ℕ) {s : LockedSystem} (r : LockedReach (with_lock false n, waiting k) s)
    → (steps r ≤ 6 * k)
      × (All Ended s.1 ⊎ ((s' : LockedSystem) × LockedTurn s s'))
      × Reach (n, starting k) (system s)
next-Ended n k {s = s} r = (
  omega (arith, left-LockedReach r, left-waiting k),
  progress s.0.nonce s.0.locked s.1 (Held-LockedReach r (holds-waiting k)),
  subst (λ ps. Reach (n, ps) (system s)) (place-waiting k) (atomic_run r),
)
