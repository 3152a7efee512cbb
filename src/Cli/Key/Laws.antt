-- ===== src/Cli/Key/Laws.antt =====
-- Which texts pass the first check of validateMnemonic.
use mathlib.Core.List.{append-nil}
use grafain.Prelude.{
  ◌≡◌, ◌≢◌, refl, sym, ap, ◌∙◌, ◌↔◌, true, false, List, [], ◌∷◌, ◌++◌, Bytes, ◌==◌, ==_iff, All,
  arith, Bool-cases, inl, inr, some, Option-cases,
}
use grafain.Cli.Key.{
  is_space, add_field, fields_from, fields, join_space, Crypto, validate_mnemonic,
}

-- A word: not empty, and without white space.
abbrev pub IsWord : Bytes → Type 0
IsWord w = (w ≢ []) × All (λ c. is_space c ≡ false) w

add_field-All :
    (w : Bytes) (ws : List Bytes)
    → All (λ c. is_space c ≡ false) w
    → All IsWord ws
    → All IsWord (add_field w ws)
unfolding add_field
add_field-All [] ws h k = k
add_field-All (c ∷ w) ws h k = ((λ e. absurd (ground arith), h), k)

fields_from-All :
    (s : Bytes) → All (λ c. is_space c ≡ false) (fields_from s).0 × All IsWord (fields_from s).1
unfolding fields_from
fields_from-All [] = (tt, tt)
fields_from-All (c ∷ s) =
    let (word, words) = fields_from-All s in
    elim (Bool-cases (is_space c)) [
      | inr letter ↦ rw letter ((letter, word), words)
      | inl space ↦ rw space (tt, add_field-All (fields_from s).0 (fields_from s).1 word words)
    ]

pub fields-All : (s : Bytes) → All IsWord (fields s)
unfolding fields
fields-All s =
    let (word, words) = fields_from-All s in
    add_field-All (fields_from s).0 (fields_from s).1 word words

-- a word in front
fields_from-append :
    (w s : Bytes)
    → All (λ c. is_space c ≡ false) w
    → fields_from (w ++ s) ≡ (w ++ (fields_from s).0, (fields_from s).1)
unfolding fields_from
fields_from-append [] s h = refl
fields_from-append (c ∷ w) s (h, hs) = ground (arith, fields_from-append w s hs)

add_field-IsWord : (w : Bytes) (ws : List Bytes) → w ≢ [] → add_field w ws ≡ w ∷ ws
unfolding add_field
add_field-IsWord [] ws h = absurd (h refl)
add_field-IsWord (c ∷ w) ws h = refl

fields-join_space : (ws : List Bytes) → All IsWord ws → fields (join_space ws) ≡ ws
unfolding fields join_space fields_from is_space add_field
fields-join_space [] h = refl
fields-join_space (w ∷ []) ((full, letters), h) =
    ap (λ (s : Bytes). fields s) (sym (append-nil w))
    ∙ ap (λ (p : Bytes × List Bytes). add_field p.0 p.1) (fields_from-append w [] letters)
    ∙ ap (λ (v : Bytes). add_field v []) (append-nil w)
    ∙ add_field-IsWord w [] full
fields-join_space (w ∷ v ∷ ws) ((full, letters), h) =
    let rest = fields-join_space (v ∷ ws) h in
    ap (λ (p : Bytes × List Bytes). add_field p.0 p.1)
      (fields_from-append w (32 ∷ join_space (v ∷ ws)) letters)
    ∙ ap (λ (u : Bytes). add_field u (fields (join_space (v ∷ ws)))) (append-nil w)
    ∙ add_field-IsWord w (fields (join_space (v ∷ ws))) full
    ∙ ap (λ (us : List Bytes). w ∷ us) rest

-- A mnemonic is valid exactly if it is a list of words without white space, joined by single spaces,
-- from which the entropy can be read.
pub validate_mnemonic_iff :
    (c : Crypto) (mnemonic : Bytes)
    → (validate_mnemonic c mnemonic ≡ true) ↔ (
        (ws : List Bytes) × (entropy : Bytes) × All IsWord ws
        × (mnemonic ≡ join_space ws)
        × (c.entropy_from_mnemonic mnemonic ≡ some entropy))
unfolding validate_mnemonic
validate_mnemonic_iff c mnemonic = (
  λ h. elim (Bool-cases (mnemonic == join_space (fields mnemonic))) [
    | inr violated ↦ absurd (ground (arith, h, violated))
    | inl single ↦ elim (Option-cases (c.entropy_from_mnemonic mnemonic)) [
      | inl bad ↦ absurd (ground (arith, h, single, bad))
      | inr (entropy, good) ↦
          (fields mnemonic, entropy, fields-All mnemonic, (==_iff _ _).0 single, good)
    ]
  ],
  λ (ws, entropy, words, same, good).
      let single : mnemonic ≡ join_space (fields mnemonic) =
        same
        ∙ ap (λ (us : List Bytes). join_space us)
            (sym (ap (λ (s : Bytes). fields s) same ∙ fields-join_space ws words)) in
      ground (arith, (==_iff mnemonic (join_space (fields mnemonic))).1 single, good),
)
