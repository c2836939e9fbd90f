-- ===== src/Strings/Parts.antt =====
-- strings.Split and strings.Cut at one character.
use remnanode_exporter.Prelude.{
  ℕ, ◌≡◌, refl, sym, ◌≢◌, inl, inr, Option, none, some, List, [], ◌∷◌, ◌++◌, append-nil, arith,
  Option-cases, Text, All,
}
use remnanode_exporter.Strings.{split, on_head, cut}

abbrev pub Lacks : ℕ → Text → Type 0
Lacks sep = All (λ c. c ≢ sep)

-- What Split promises: the parts, with a separator between them, spell the text.
unfoldable pub join : ℕ → List Text → Text
join sep [] = []
join sep (p ∷ []) = p
join sep (p ∷ q ∷ ps) = p ++ sep ∷ join sep (q ∷ ps)

split-ne-nil : (sep : ℕ) (s : Text) → split sep s ≢ []
unfolding split on_head
split-ne-nil sep [] = cc
split-ne-nil sep (c ∷ s) = ground arith

join-cons-nil : (sep : ℕ) (ps : List Text) → ps ≢ [] → join sep ([] ∷ ps) ≡ sep ∷ join sep ps
unfolding join
join-cons-nil sep [] h = absurd (h refl)
join-cons-nil sep (p ∷ ps) h = refl

join-on_head :
    (sep c : ℕ) (ps : List Text) → ps ≢ [] → join sep (on_head (λ p. c ∷ p) ps) ≡ c ∷ join sep ps
unfolding join on_head
join-on_head sep c [] h = absurd (h refl)
join-on_head sep c (p ∷ []) h = refl
join-on_head sep c (p ∷ q ∷ ps) h = refl

pub join-split : (sep : ℕ) (s : Text) → join sep (split sep s) ≡ s
unfolding split
join-split sep [] = unfold join in refl
join-split sep (c ∷ s) = ground (
  arith,
  join-split sep s,
  split-ne-nil sep s,
  join-cons-nil sep (split sep s),
  join-on_head sep c (split sep s),
)

split_cons : (sep : ℕ) (s : Text) → split sep (sep ∷ s) ≡ [] ∷ split sep s
unfolding split
split_cons sep s = ground arith

on_head-on_head :
    (c : ℕ) (p : Text) (ps : List Text)
    → on_head (λ q. c ∷ q) (on_head (λ q. p ++ q) ps) ≡ on_head (λ q. c ∷ p ++ q) ps
unfolding on_head
on_head-on_head c p [] = refl
on_head-on_head c p (q ∷ ps) = refl

on_head-nil : (ps : List Text) → ps ≢ [] → on_head (λ q. [] ++ q) ps ≡ ps
unfolding on_head
on_head-nil [] h = absurd (h refl)
on_head-nil (p ∷ ps) h = refl

pub split-append :
    (sep : ℕ) (p s : Text) → Lacks sep p → split sep (p ++ s) ≡ on_head (λ q. p ++ q) (split sep s)
unfolding split
split-append sep [] s h = sym (on_head-nil (split sep s) (split-ne-nil sep s))
split-append sep (c ∷ p) s (hc, h) =
    ground (arith, split-append sep p s h, on_head-on_head c p (split sep s))

split_last : (sep : ℕ) (p : Text) → Lacks sep p → split sep p ≡ p ∷ []
unfolding split on_head
split_last sep [] h = refl
split_last sep (c ∷ p) (hc, h) = ground (arith, split_last sep p h)

pub split-join :
    (sep : ℕ) (ps : List Text) → ps ≢ [] → All (Lacks sep) ps → split sep (join sep ps) ≡ ps
unfolding join on_head
split-join sep [] h _ = absurd (h refl)
split-join sep (p ∷ []) h (hp, _) = split_last sep p hp
split-join sep (p ∷ q ∷ ps) h (hp, hps) =
    rw
      (
        split-append sep p (sep ∷ join sep (q ∷ ps)) hp,
        split_cons,
        split-join sep (q ∷ ps) (cc) hps,
      )
      (rw append-nil)

-- What Cut promises, on both branches.
abbrev pub IsCut : ℕ → Text → Option (Text × Text) → Type 0
IsCut sep s none = Lacks sep s
IsCut sep s (some (a, b)) = (s ≡ a ++ sep ∷ b) × Lacks sep a

IsCut-cons :
    (sep c : ℕ) (s : Text) (r : Option (Text × Text))
    → cut sep s ≡ r
    → IsCut sep s r
    → IsCut sep (c ∷ s) (cut sep (c ∷ s))
unfolding cut
IsCut-cons sep c s none e h = ground arith
IsCut-cons sep c s (some (a, b)) e h = ground arith

pub cut-IsCut : (sep : ℕ) (s : Text) → IsCut sep s (cut sep s)
cut-IsCut sep [] = unfold cut in tt
cut-IsCut sep (c ∷ s) = IsCut-cons sep c s (cut sep s) refl (cut-IsCut sep s)

pub cut-append : (sep : ℕ) (a b : Text) → Lacks sep a → cut sep (a ++ sep ∷ b) ≡ some (a, b)
unfolding cut
cut-append sep [] b h = elim (Option-cases (cut sep b)) [
  | inl e ↦ ground arith
  | inr (p, e) ↦ ground arith
]
cut-append sep (c ∷ a) b (hc, h) = ground (arith, cut-append sep a b h)
