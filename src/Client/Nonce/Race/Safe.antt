-- ===== src/Client/Nonce/Race/Safe.antt =====
-- Once a nonce has a number, its goroutines get different ones.
use grafain.Prelude.{
  ℕ, ◌+◌, ◌%◌, ◌^◌, ◌<◌, ◌≤◌, ◌≡◌, ◌≢◌, refl, sym, ap, ◌∙◌, subst, false, List, [], ◌∷◌, ◌++◌, All,
  length, length-append, length-replicate, replicate, zero, suc, arith, Option,
}
use grafain.Client.Query.{UserResponse}
use grafain.Client.Nonce.{Nonce}
use grafain.Client.Nonce.Race.{
  Place, start, increment, returned, get_user, read_result, failed, store, initialize, Step, Turn,
  System, Reach, look_query, look_cached, answered, no_answer, stored, result_read, incremented,
  turn, here, step,
}

-- the numbers that have been returned
abbrev pub results : List Place → List ℕ
results [] = []
results (returned v ∷ ps) = v ∷ results ps
results (start ∷ ps) = results ps
results (get_user ∷ ps) = results ps
results (increment ∷ ps) = results ps
results (read_result ∷ ps) = results ps
results (failed ∷ ps) = results ps
results (store u ∷ ps) = results ps

-- no number twice
abbrev pub Distinct : List ℕ → Type 0
Distinct [] = Unit
Distinct (v ∷ vs) = All (λ w. v ≢ w) vs × Distinct vs

-- a goroutine that does not ask the node
pub data Cached : Place → Type 0 where
  at_start : Cached start
  at_increment : Cached increment
  at_end : {v : ℕ} → Cached (returned v)

results-append : (ps qs : List Place) → results (ps ++ qs) ≡ results ps ++ results qs
results-append [] qs = refl
results-append (returned v ∷ ps) qs = ap (λ (l : List ℕ). v ∷ l) (results-append ps qs)
results-append (start ∷ ps) qs = results-append ps qs
results-append (get_user ∷ ps) qs = results-append ps qs
results-append (increment ∷ ps) qs = results-append ps qs
results-append (read_result ∷ ps) qs = results-append ps qs
results-append (failed ∷ ps) qs = results-append ps qs
results-append (store u ∷ ps) qs = results-append ps qs

module _ {ℓ κ} {A : Type ℓ} (P : A → Type κ) where
  All-middle : (xs : List A) (y : A) (ys : List A) → All P (xs ++ (y ∷ ys)) → P y
  All-middle [] y ys (h, hs) = h
  All-middle (x ∷ xs) y ys (h, hs) = All-middle xs y ys hs

  All-replace :
      (xs : List A) (y y' : A) (ys : List A)
      → P y'
      → All P (xs ++ (y ∷ ys))
      → All P (xs ++ (y' ∷ ys))
  All-replace [] y y' ys p (h, hs) = (p, hs)
  All-replace (x ∷ xs) y y' ys p (h, hs) = (h, All-replace xs y y' ys p hs)

  All-insert : (xs : List A) (y : A) (ys : List A) → P y → All P (xs ++ ys) → All P (xs ++ (y ∷ ys))
  All-insert [] y ys p h = (p, h)
  All-insert (x ∷ xs) y ys p (h, hs) = (h, All-insert xs y ys p hs)

  All-map : {Q : A → Type κ} → ((x : A) → P x → Q x) → (xs : List A) → All P xs → All Q xs
  All-map f [] h = tt
  All-map f (x ∷ xs) (h, hs) = (f x h, All-map f xs hs)

-- a number above all others is a new one
Distinct-insert :
    (vs : List ℕ) (v : ℕ) (ws : List ℕ)
    → All (λ w. w < v) (vs ++ ws)
    → Distinct (vs ++ ws)
    → Distinct (vs ++ (v ∷ ws))
Distinct-insert [] v ws h d = (All-map (λ w. w < v) (λ w less e. absurd (omega arith)) ws h, d)
Distinct-insert (u ∷ vs) v ws (less, h) (new, d) =
    (All-insert (λ w. u ≢ w) vs v ws (λ e. absurd (omega arith)) new, Distinct-insert vs v ws h d)

-- What holds of a nonce with the number m at the start.
pub record Counts (m k : ℕ) (s : System) : Type 0 where
  pub known : initialize s.0 ≡ false
  pub goroutines : length s.1 ≡ k
  pub cached : All Cached s.1
  pub count : s.0.nonce ≡ m + length (results s.1)
  pub distinct : Distinct (results s.1)
  pub between : All (λ v. (m < v) × (v ≤ s.0.nonce)) (results s.1)

length-results : (ps : List Place) → length (results ps) ≤ length ps
length-results [] = omega arith
length-results (returned v ∷ ps) = omega (arith, length-results ps)
length-results (start ∷ ps) = omega (arith, length-results ps)
length-results (get_user ∷ ps) = omega (arith, length-results ps)
length-results (increment ∷ ps) = omega (arith, length-results ps)
length-results (read_result ∷ ps) = omega (arith, length-results ps)
length-results (failed ∷ ps) = omega (arith, length-results ps)
length-results (store u ∷ ps) = omega (arith, length-results ps)

not_asking : ¬ Cached get_user
not_asking c = elim c [ ]

not_reading : ¬ Cached read_result
not_reading c = elim c [ ]

not_storing : {u : Option UserResponse} → ¬ Cached (store u)
not_storing c = elim c [ ]

module _ (m k : ℕ) (small : m + k < 2 ^ 64) where
  Counts-Step :
      {n n' : Nonce} {p p' : Place} (before after : List Place)
      → Step (n, p) (n', p')
      → Counts m k (n, before ++ (p ∷ after))
      → Counts m k (n', before ++ (p' ∷ after))
  unfolding initialize
  Counts-Step before after (look_query h) c = absurd (ground (arith, h, c.known))
  Counts-Step {n = n} before after (look_cached h) c =
      let same =
        results-append before (start ∷ after) ∙ sym (results-append before (increment ∷ after)) in
      record {
        known = c.known;
        goroutines = omega (
          arith,
          c.goroutines,
          length-append before (start ∷ after),
          length-append before (increment ∷ after),
        );
        cached = All-replace Cached before start increment after at_increment c.cached;
        count = c.count ∙ ap (λ (vs : List ℕ). m + length vs) same;
        distinct = subst Distinct same c.distinct;
        between = subst (λ vs. All (λ v. (m < v) × (v ≤ n.nonce)) vs) same c.between;
      }
  Counts-Step before after (answered u) c =
      absurd (not_asking (All-middle Cached before _ after c.cached))
  Counts-Step before after no_answer c =
      absurd (not_asking (All-middle Cached before _ after c.cached))
  Counts-Step before after stored c =
      absurd (not_storing (All-middle Cached before _ after c.cached))
  Counts-Step before after result_read c =
      absurd (not_reading (All-middle Cached before _ after c.cached))
  Counts-Step {n = n} before after incremented c =
      let old = results-append before (increment ∷ after) in
      let new = results-append before (returned (n.nonce + 1) ∷ after) in
      let known = subst (λ vs. All (λ v. (m < v) × (v ≤ n.nonce)) vs) old c.between in
      let shorter = length-results before in
      let shorter' = length-results after in
      let before_it = length-append before (increment ∷ after) in
      let count : n.nonce ≡ m + length (results before ++ results after) =
        c.count ∙ ap (λ (vs : List ℕ). m + length vs) old in
      let parts = length-append (results before) (results after) in
      let fits : (n.nonce + 1) % 2 ^ 64 ≡ n.nonce + 1 = omega (arith, c.goroutines) in
      subst
        (λ v. Counts m k (record { nonce = v; from_query = false }, before ++ (returned v ∷ after)))
        (sym fits)
        (record {
          known = ground arith;
          goroutines =
              omega (arith, c.goroutines, length-append before (returned (n.nonce + 1) ∷ after));
          cached =
              All-replace Cached before increment (returned (n.nonce + 1)) after at_end c.cached;
          count = omega (
            arith,
            count,
            ap (λ (vs : List ℕ). length vs) new,
            length-append (results before) ((n.nonce + 1) ∷ results after),
          );
          distinct = subst Distinct (sym new) (
              Distinct-insert (results before) (n.nonce + 1) (results after)
                (All-map (λ v. (m < v) × (v ≤ n.nonce)) (λ v h. omega (arith, h.1))
                  (results before ++ results after) known)
                (subst Distinct old c.distinct));
          between =
              subst (λ vs. All (λ v. (m < v) × (v ≤ n.nonce + 1)) vs) (sym new)
                (All-insert (λ v. (m < v) × (v ≤ n.nonce + 1)) (results before) (n.nonce + 1)
                  (results after) (omega arith, omega arith)
                  (All-map (λ v. (m < v) × (v ≤ n.nonce)) (λ v h. (h.0, omega (arith, h.1)))
                    (results before ++ results after) known));
        })

  Counts-Turn : {s s' : System} → Turn s s' → Counts m k s → Counts m k s'
  Counts-Turn (turn before after st) c = Counts-Step before after st c

-- Where a nonce that has a number is shared by any number of goroutines, the numbers that Next
-- returns are all different, lie above the first number, and are as many as the nonce has counted,
-- in whatever order the goroutines take their steps.
pub Reach-Counts :
    (m k : ℕ) → m + k < 2 ^ 64 → {s s' : System} → Reach s s' → Counts m k s → Counts m k s'
Reach-Counts m k small here c = c
Reach-Counts m k small (step r t) c = Counts-Turn m k small t (Reach-Counts m k small r c)

-- k goroutines that have not begun
abbrev pub starting : ℕ → List Place
starting k = replicate k start

results-starting : (k : ℕ) → results (starting k) ≡ []
results-starting zero = refl
results-starting (suc k) = results-starting k

Cached-starting : (k : ℕ) → All Cached (starting k)
Cached-starting zero = tt
Cached-starting (suc k) = (at_start, Cached-starting k)

-- Where k goroutines call Next once each on a nonce that has a number, and the 64 bits do not
-- overflow, the numbers that have been returned, as bit patterns, are different, lie above the number
-- at the start, and are as many as the nonce has counted up, at any time and in whatever order the
-- goroutines take their steps.
pub next-Distinct :
    (n : Nonce) (k : ℕ) {n' : Nonce} {ps : List Place}
    → initialize n ≡ false
    → n.nonce + k < 2 ^ 64
    → Reach (n, starting k) (n', ps)
    → Distinct (results ps)
      × All (λ v. (n.nonce < v) × (v ≤ n'.nonce)) (results ps)
      × (n'.nonce ≡ n.nonce + length (results ps))
next-Distinct n k known small r =
    let none_yet = results-starting k in
    let c = Reach-Counts n.nonce k small r (record {
      known = known;
      goroutines = length-replicate k start;
      cached = Cached-starting k;
      count = omega (arith, ap (λ (vs : List ℕ). length vs) none_yet);
      distinct = subst Distinct (sym none_yet) tt;
      between = subst (λ vs. All (λ v. (n.nonce < v) × (v ≤ n.nonce)) vs) (sym none_yet) tt;
    }) in
    (c.distinct, c.between, c.count)
