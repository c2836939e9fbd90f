-- ===== src/Strings/Within.antt =====
-- strings.HasPrefix and strings.Contains find exactly the parts of a text.
use remnanode_exporter.Strings.{has_prefix, contains}
use remnanode_exporter.Prelude.{
  ◌≡◌, refl, ap, ◌↔◌, inl, inr, true, [], ◌∷◌, ◌++◌, arith, Bool-cases, Text,
}

-- `s` begins with `t`
abbrev pub Begins : Text → Text → Type 0
Begins s t = (post : Text) × (s ≡ t ++ post)

-- `t` stands somewhere in `s`
abbrev pub IsWithin : Text → Text → Type 0
IsWithin s t = (pre : Text) × (post : Text) × (s ≡ pre ++ (t ++ post))

has_prefix_sound : (s t : Text) → has_prefix s t ≡ true → Begins s t
unfolding has_prefix
has_prefix_sound s [] h = (s, refl)
has_prefix_sound [] (d ∷ t) h = cc
has_prefix_sound (c ∷ s) (d ∷ t) h =
    let same : c ≡ d = ground arith in
    let (post, e) = has_prefix_sound s t (ground arith) in (post, λ i. same i ∷ e i)

has_prefix_complete : (t post : Text) → has_prefix (t ++ post) t ≡ true
unfolding has_prefix
has_prefix_complete [] post = ground arith
has_prefix_complete (c ∷ t) post = ground (arith, has_prefix_complete t post)

contains_sound : (s t : Text) → contains s t ≡ true → IsWithin s t
unfolding contains
contains_sound [] t h = let (post, e) = has_prefix_sound [] t h in ([], post, e)
contains_sound (c ∷ s) t h = elim (Bool-cases (has_prefix (c ∷ s) t)) [
  | inl b ↦ let (post, e) = has_prefix_sound (c ∷ s) t b in ([], post, e)
  | inr b ↦
      let (pre, post, e) = contains_sound s t (ground (arith, h, b)) in
      (c ∷ pre, post, ap (λ x. c ∷ x) e)
]

contains_complete : (pre t post : Text) → contains (pre ++ (t ++ post)) t ≡ true
unfolding contains
contains_complete [] [] [] = ground (arith, has_prefix_complete [] [])
contains_complete [] [] (c ∷ post) = ground (arith, has_prefix_complete [] (c ∷ post))
contains_complete [] (d ∷ t) post = ground (arith, has_prefix_complete (d ∷ t) post)
contains_complete (c ∷ pre) t post = ground (arith, contains_complete pre t post)

-- strings.Contains is true exactly of the texts that stand in the other one.
pub contains_iff : (s t : Text) → (contains s t ≡ true) ↔ IsWithin s t
contains_iff s t = (contains_sound s t, λ (pre, post, e). rw e (contains_complete pre t post))
