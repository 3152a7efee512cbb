-- ===== src/Rbac/Context/Order.antt =====
-- The conditions of a context do not depend on the order in which Go iterates over a map.
use grafain.Prelude.{true, false, ◌≡◌, refl, ◌∙◌, List, [], ◌∷◌, Bytes, arith}
use mathlib.Core.List.{Permᴰ}
use grafain.Rbac.Context.{bytes_lt, insert_sorted, sort_conditions}

bytes_lt_irrefl : (a : Bytes) → bytes_lt a a ≡ false
unfolding bytes_lt
bytes_lt_irrefl [] = refl
bytes_lt_irrefl (a ∷ s) = ground (arith, bytes_lt_irrefl s)

pub bytes_lt_trans :
    (a b c : Bytes) → bytes_lt a b ≡ true → bytes_lt b c ≡ true → bytes_lt a c ≡ true
unfolding bytes_lt
bytes_lt_trans [] [] c h k = cc
bytes_lt_trans [] (b ∷ t) [] h k = cc
bytes_lt_trans [] (b ∷ t) (c ∷ u) h k = refl
bytes_lt_trans (a ∷ s) [] c h k = cc
bytes_lt_trans (a ∷ s) (b ∷ t) [] h k = cc
bytes_lt_trans (a ∷ s) (b ∷ t) (c ∷ u) h k = ground (arith, bytes_lt_trans s t u)

pub bytes_lt_total : (a b : Bytes) → bytes_lt a b ≡ false → bytes_lt b a ≡ false → a ≡ b
unfolding bytes_lt
bytes_lt_total [] [] h k = refl
bytes_lt_total [] (b ∷ t) h k = cc
bytes_lt_total (a ∷ s) [] h k = cc
bytes_lt_total (a ∷ s) (b ∷ t) h k = ground (arith, bytes_lt_total s t)

pub insert_sorted_comm :
    (x y : Bytes) (l : List Bytes)
    → insert_sorted x (insert_sorted y l) ≡ insert_sorted y (insert_sorted x l)
unfolding insert_sorted
insert_sorted_comm x y [] =
    ground (arith, bytes_lt_total x y, bytes_lt_trans x y x, bytes_lt_irrefl x)
insert_sorted_comm x y (z ∷ l) = ground (
  arith,
  insert_sorted_comm x y l,
  bytes_lt_total x y,
  bytes_lt_trans x y x,
  bytes_lt_irrefl x,
  bytes_lt_trans z x y,
  bytes_lt_trans z y x,
  bytes_lt_total x z,
  bytes_lt_total y z,
  bytes_lt_irrefl z,
)

-- However the conditions come in, they are sorted into the same list.
pub sort_conditions_perm :
    {xs ys : List Bytes} → Permᴰ xs ys → sort_conditions xs ≡ sort_conditions ys
unfolding sort_conditions
sort_conditions_perm Permᴰ.nil = refl
sort_conditions_perm (Permᴰ.cons {a} {b} {l₁} {l₂} e p) = cc (sort_conditions_perm p, e)
sort_conditions_perm (Permᴰ.swap {a} {b} {a'} {b'} {l} e f) =
    cc (insert_sorted_comm a b (sort_conditions l), e, f)
sort_conditions_perm (Permᴰ.trans p q) = sort_conditions_perm p ∙ sort_conditions_perm q
