-- ===== src/Rbac/Permission/Laws.antt =====
-- What the check of a permission accepts, and the order that `allows` makes of permissions.
use grafain.Prelude.{
  ℕ, zero, suc, ◌-◌, ◌≤◌, ◌≡◌, refl, ◌↔◌, ◌⊎◌, inl, inr, sym, ap, Bool, true, false, not, ◌&&◌,
  none, [], ◌∷◌, ◌++◌, Bytes, subst, ◌∙◌, has_suffix-eq_append, ==_iff, ==_refl, length, take,
  arith, has_prefix, has_prefix-append, has_prefix_iff, has_suffix-append, Bool-cases, All,
  length-append, take-append_length,
}
use grafain.Weave.{Weave}
use grafain.Rbac.Permission.{
  Permission, is_name_byte, is_last_byte, matches, is_permission, wildcard, is_wildcard, allows,
  validate,
}

-- The language of the regular expression: name bytes, at least one and at most `n`, then a last byte.
pub record IsName (n : ℕ) (s : Bytes) : Type 0 where
  pub name : Bytes
  pub last : ℕ
  pub splits : s ≡ name ++ last ∷ []
  pub nonempty : 1 ≤ length name
  pub short : length name ≤ n
  pub names : All (λ c. is_name_byte c ≡ true) name
  pub ends : is_last_byte last ≡ true

and-true : (a b : Bool) → (a && b) ≡ true → (a ≡ true) × (b ≡ true)
and-true a b h = ground arith

matches_sound :
    (n : ℕ) (started : Bool) (s : Bytes)
    → matches n started s ≡ true
    → (name : Bytes) × (last : ℕ) × (s ≡ name ++ last ∷ [])
      × (length name ≤ n)
      × ((started ≡ true) ⊎ (1 ≤ length name))
      × All (λ c. is_name_byte c ≡ true) name
      × (is_last_byte last ≡ true)
unfolding matches
matches_sound n started [] h = cc
matches_sound n started (c ∷ []) h =
    let (begun, ends) = and-true started (is_last_byte c) h in
    ([], c, refl, omega arith, inl begun, tt, ends)
matches_sound zero started (c ∷ d ∷ s) h = cc
matches_sound (suc n) started (c ∷ d ∷ s) h =
    let (first, rest) = and-true (is_name_byte c) (matches n true (d ∷ s)) h in
    let (name, last, e, fits, _, names, ends) = matches_sound n true (d ∷ s) rest in
    let short : length (c ∷ name) ≤ suc n = omega arith in
    let first_le : 1 ≤ length (c ∷ name) = omega arith in
    (c ∷ name, last, ap (λ (t : Bytes). c ∷ t) e, short, inr first_le, (first, names), ends)

matches_complete :
    (n : ℕ) (started : Bool) (name : Bytes) (last : ℕ)
    → length name ≤ n
    → (started ≡ true) ⊎ (1 ≤ length name)
    → All (λ c. is_name_byte c ≡ true) name
    → is_last_byte last ≡ true
    → matches n started (name ++ last ∷ []) ≡ true
unfolding matches
matches_complete n started [] last short begun names ends = ground arith
matches_complete zero started (c ∷ name) last short begun names ends = absurd (omega arith)
matches_complete (suc n) started (c ∷ []) last short begun names ends =
    ground (arith, matches_complete n true [] last (omega arith) (inl refl) tt ends)
matches_complete (suc n) started (c ∷ d ∷ name) last short begun names ends =
    ground (arith, matches_complete n true (d ∷ name) last (omega arith) (inl refl) names.1 ends)

-- `isPermission` accepts exactly the texts of its regular expression: 1 to 127 name bytes, then a
-- digit, a lower case letter or a star.
pub is_permission_iff : (s : Bytes) → (is_permission s ≡ true) ↔ IsName 127 s
unfolding is_permission
is_permission_iff s = (
  λ h.
      let (name, last, e, short, begun, names, ends) = matches_sound 127 false s h in
      record {
        name = name;
        last = last;
        splits = e;
        nonempty = elim begun [ inl p ↦ cc | inr p ↦ p ];
        short = short;
        names = names;
        ends = ends;
      },
  λ w.
      rw w.splits
        (matches_complete 127 false w.name w.last w.short (inr w.nonempty) w.names w.ends),
)

-- A permission is valid exactly if it is a text of the regular expression: the two tests of the
-- length before it refuse nothing that the expression accepts.
pub validate_iff : ⦃W : Weave⦄ (m : Permission) → (validate m ≡ none) ↔ IsName 127 m
unfolding validate
validate_iff m = (
  λ h. (is_permission_iff m).0 (ground arith),
  λ w. ground (
    arith,
    (is_permission_iff m).1 w,
    ap length w.splits,
    length-append w.name (w.last ∷ []),
    w.nonempty,
    w.short,
  ),
)

take_name :
    (name : Bytes) (last : ℕ) → take (length (name ++ last ∷ []) - 1) (name ++ last ∷ []) ≡ name
take_name name last = rw length-append (
    subst (λ n. take n (name ++ last ∷ []) ≡ name) (omega arith)
      (take-append_length name (last ∷ [])))

-- `Allows` is transitive.
pub allows_trans : (a b c : Permission) → allows a b ≡ true → allows b c ≡ true → allows a c ≡ true
unfolding allows
allows_trans a b c h k = ground (arith, ==_iff b c)

-- A permission allows itself exactly if it is no wildcard.
pub allows_self : (m : Permission) → allows m m ≡ not (is_wildcard m)
unfolding allows
allows_self m = ground (arith, ==_refl m)

pub is_wildcard-append : (q : Bytes) → is_wildcard (q ++ wildcard) ≡ true
unfolding is_wildcard
is_wildcard-append q = has_suffix-append q wildcard

pub wildcard-splits :
    (m : Permission) → is_wildcard m ≡ true → m ≡ take (length m - 1) m ++ wildcard
unfolding is_wildcard
wildcard-splits m w = has_suffix-eq_append m wildcard w

allows-wildcard : (q p : Bytes) → allows (q ++ wildcard) p ≡ (has_prefix p q && not (is_wildcard p))
unfolding allows
allows-wildcard q p = ground (arith, is_wildcard-append q, take_name q b'*')

-- `Allows`, as a client reads it: a permission with no wildcard allows itself alone, and a
-- wildcard allows what continues its text before the star with anything but another wildcard.
pub allows_iff :
    (m p : Permission)
    → (allows m p ≡ true) ↔ (
        ((is_wildcard m ≡ false) × (m ≡ p))
        ⊎ ((q t : Bytes) × (m ≡ q ++ wildcard) × (p ≡ q ++ t) × (is_wildcard p ≡ false)))
allows_iff m p = (
  λ h. elim (Bool-cases (is_wildcard m)) [
    | inl w ↦ inr (of_wildcard h w)
    | inr n ↦ inl (n, unfold allows in ground (arith, ==_iff m p))
  ],
  λ d. elim d [
    | inl (n, e) ↦ unfold allows in ground (arith, ==_iff m p)
    | inr (q, t, e, continues, n) ↦
        rw (e, allows-wildcard, continues)
          (ground (arith, has_prefix-append q t, ap is_wildcard continues))
  ],
)
  where
    of_wildcard :
        allows m p ≡ true
        → is_wildcard m ≡ true
        → (q t : Bytes) × (m ≡ q ++ wildcard) × (p ≡ q ++ t) × (is_wildcard p ≡ false)
    of_wildcard h w =
        let q = take (length m - 1) m in
        let both : (has_prefix p q && not (is_wildcard p)) ≡ true = unfold allows in ground arith in
        let (t, continues) = (has_prefix_iff p q).0 (ground arith) in
        (q, t, wildcard-splits m w, continues, ground arith)

abbrev SameStart : Bytes → Bytes → Type 0
SameStart m p = (c : ℕ) × (s t : Bytes) × (is_name_byte c ≡ true) × (m ≡ c ∷ s) × (p ≡ c ∷ t)

name_starts :
    (name : Bytes) (last : ℕ) {m p : Bytes}
    → 1 ≤ length name
    → All (λ c. is_name_byte c ≡ true) name
    → m ≡ name ++ last ∷ []
    → (m ≡ p) ⊎ ((t : Bytes) × (p ≡ name ++ t))
    → SameStart m p
name_starts [] last h names e d = absurd (omega arith)
name_starts (c ∷ name) last h names e (inl same) =
    (c, name ++ last ∷ [], name ++ last ∷ [], names.0, e, sym same ∙ e)
name_starts (c ∷ name) last h names e (inr (t, continues)) =
    (c, name ++ last ∷ [], name ++ t, names.0, e, continues)

-- No valid permission reaches beyond its first letter: what it allows begins as it does.
pub allows-same_start :
    ⦃W : Weave⦄ (m p : Permission)
    → validate m ≡ none
    → allows m p ≡ true
    → (c : ℕ) × (s t : Bytes) × (is_name_byte c ≡ true) × (m ≡ c ∷ s) × (p ≡ c ∷ t)
allows-same_start m p v h =
    let w = (validate_iff m).0 v in
    name_starts w.name w.last w.nonempty w.names w.splits (elim ((allows_iff m p).0 h) [
      | inl (_, same) ↦ inl same
      | inr (q, t, e, continues, _) ↦
          inr (t, continues ∙ ap (λ (r : Bytes). r ++ t) (same_name w q e))
    ])
  where
    same_name : (w : IsName 127 m) (q : Bytes) → m ≡ q ++ wildcard → q ≡ w.name
    same_name w q e =
        sym (take_name q b'*')
        ∙ ap (λ (r : Bytes). take (length r - 1) r) (sym e ∙ w.splits)
        ∙ take_name w.name w.last
