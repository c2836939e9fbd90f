-- ===== src/Schema/Statements.antt =====
-- What the statements of a file are, and what comments do to them.
use remnanode_exporter.Schema.Solid.{solid-clean, solid-split, solid-statements, sql_lines, solid}
use remnanode_exporter.Prelude.{
  ℕ, ◌≡◌, refl, sym, ◌∙◌, ◌≢◌, inl, inr, Bool, true, false, List, [], ◌∷◌, ◌++◌, arith, ◌==◌,
  if◌then◌else◌, Bool-cases, Text, text_eq, text_eq_iff, concat_map, All,
}
use remnanode_exporter.Strings.Parts.{split-join, join, Lacks}
use remnanode_exporter.Strings.{is_space, on_head, trim_space, trim_right, split, trim_left}
use remnanode_exporter.Schema.{is_comment, split_statements, clean, statements}

clean-comment :
    (xs ys : List Text) (line : Text)
    → is_comment line ≡ true
    → clean (xs ++ line ∷ ys) ≡ clean (xs ++ ys)
unfolding clean
clean-comment [] ys line h = rw h refl
clean-comment (x ∷ xs) ys line h = rw (clean-comment xs ys line h) refl

lines_of : (ls : List Text) → ls ≢ [] → All (Lacks b'\n') ls → split b'\n' (join b'\n' ls) ≡ ls
lines_of ls h a = split-join b'\n' ls h a

append-ne-nil : (xs ys : List Text) (l : Text) → (xs ++ l ∷ ys) ≢ []
append-ne-nil [] ys l h = cc
append-ne-nil (x ∷ xs) ys l h = cc

All-skip :
    (P : Text → Type 0) (xs ys : List Text) (l : Text) → All P (xs ++ l ∷ ys) → All P (xs ++ ys)
All-skip P [] ys l (h, hs) = hs
All-skip P (x ∷ xs) ys l (h, hs) = (h, All-skip P xs ys l hs)

-- A comment line, wherever it stands and whatever it holds (a semicolon, for one), does not change the
-- statements of a file that has another line.
pub split_statements-comment :
    (xs ys : List Text) (line : Text)
    → All (Lacks b'\n') (xs ++ line ∷ ys)
    → xs ++ ys ≢ []
    → is_comment line ≡ true
    → split_statements (join b'\n' (xs ++ line ∷ ys)) ≡ split_statements (join b'\n' (xs ++ ys))
unfolding split_statements
split_statements-comment xs ys line a h c =
    rw
      (
        lines_of (xs ++ line ∷ ys) (append-ne-nil xs ys line) a,
        lines_of (xs ++ ys) h (All-skip (Lacks b'\n') xs ys line a),
        clean-comment xs ys line c,
      )
      refl

module _ (P : ℕ → Type 0) where
  trim_left-All : (p : ℕ → Bool) (s : Text) → All P s → All P (trim_left p s)
  unfolding trim_left
  trim_left-All p [] h = tt
  trim_left-All p (c ∷ s) (hc, h) = elim (Bool-cases (p c)) [
    | inl e ↦ rw e (trim_left-All p s h)
    | inr e ↦ rw e (hc, h)
  ]

  trim_right_cons :
      (b : Bool) (c : ℕ) (t : Text)
      → P c
      → All P t
      → All P (elim t [ [] ↦ if b then [] else c ∷ [] | d ∷ u ↦ c ∷ d ∷ u ])
  trim_right_cons true c [] hc h = tt
  trim_right_cons false c [] hc h = (hc, tt)
  trim_right_cons b c (d ∷ u) hc h = (hc, h)

  trim_right-All : (p : ℕ → Bool) (s : Text) → All P s → All P (trim_right p s)
  unfolding trim_right
  trim_right-All p [] h = tt
  trim_right-All p (c ∷ s) (hc, h) =
      trim_right_cons (p c) c (trim_right p s) hc (trim_right-All p s h)

  trim_space-All : (s : Text) → All P s → All P (trim_space s)
  unfolding trim_space
  trim_space-All s h = trim_right-All is_space (trim_left is_space s) (trim_left-All is_space s h)

-- the first and the last code point
abbrev pub Starts : (ℕ → Type 0) → Text → Type 0
Starts P [] = ⊥
Starts P (c ∷ s) = P c

abbrev pub Ends : (ℕ → Type 0) → Text → Type 0
Ends P [] = ⊥
Ends P (c ∷ []) = P c
Ends P (c ∷ d ∷ s) = Ends P (d ∷ s)

abbrev pub IsSolid : ℕ → Type 0
IsSolid c = is_space c ≡ false

-- a statement: no space at either end, something in between, and no semicolon
abbrev pub IsStatement : Text → Type 0
IsStatement s = Starts IsSolid s × Ends IsSolid s × Lacks b';' s

trim_left-Starts : (s : Text) → trim_left is_space s ≢ [] → Starts IsSolid (trim_left is_space s)
unfolding trim_left
trim_left-Starts [] h = h refl
trim_left-Starts (c ∷ s) h = elim (Bool-cases (is_space c)) [
  | inl e ↦ rw e (trim_left-Starts s (rw e at h))
  | inr e ↦ rw e e
]

trim_right_cons-Starts :
    (b : Bool) (c : ℕ) (t : Text)
    → IsSolid c
    → b ≡ false
    → Starts IsSolid (elim t [ [] ↦ if b then [] else c ∷ [] | d ∷ u ↦ c ∷ d ∷ u ])
trim_right_cons-Starts b c [] h e = rw e h
trim_right_cons-Starts b c (d ∷ u) h e = h

trim_right-Starts : (s : Text) → Starts IsSolid s → Starts IsSolid (trim_right is_space s)
unfolding trim_right
trim_right-Starts [] h = h
trim_right-Starts (c ∷ s) h = trim_right_cons-Starts (is_space c) c (trim_right is_space s) h h

trim_right_cons-Ends :
    (b : Bool) (c : ℕ) (t : Text)
    → is_space c ≡ b
    → (t ≢ [] → Ends IsSolid t)
    → (elim t [ [] ↦ if b then [] else c ∷ [] | d ∷ u ↦ c ∷ d ∷ u ]) ≢ []
    → Ends IsSolid (elim t [ [] ↦ if b then [] else c ∷ [] | d ∷ u ↦ c ∷ d ∷ u ])
trim_right_cons-Ends true c [] e ih h = h refl
trim_right_cons-Ends false c [] e ih h = e
trim_right_cons-Ends b c (d ∷ u) e ih h = ih (λ z. cc)

trim_right-Ends : (s : Text) → trim_right is_space s ≢ [] → Ends IsSolid (trim_right is_space s)
unfolding trim_right
trim_right-Ends [] h = h refl
trim_right-Ends (c ∷ s) h =
    trim_right_cons-Ends (is_space c) c (trim_right is_space s) refl (trim_right-Ends s) h

trim_right_nil : (s : Text) → s ≡ [] → trim_right is_space s ≡ []
unfolding trim_right
trim_right_nil s e = rw e refl

trim_space-IsStatement : (s : Text) → Lacks b';' s → trim_space s ≢ [] → IsStatement (trim_space s)
unfolding trim_space
trim_space-IsStatement s h ne = (
  trim_right-Starts _ (trim_left-Starts s (λ z. ne (trim_right_nil _ z))),
  trim_right-Ends (trim_left is_space s) ne,
  unfold trim_space in trim_space-All (λ c. c ≢ b';') s h,
)

on_head-Lacks :
    (sep c : ℕ) (ps : List Text)
    → c ≢ sep
    → All (Lacks sep) ps
    → All (Lacks sep) (on_head (λ p. c ∷ p) ps)
unfolding on_head
on_head-Lacks sep c [] h a = ((h, tt), tt)
on_head-Lacks sep c (p ∷ ps) h (hp, a) = ((h, hp), a)

split-Lacks : (sep : ℕ) (s : Text) → All (Lacks sep) (split sep s)
unfolding split on_head
split-Lacks sep [] = (tt, tt)
split-Lacks sep (c ∷ s) = elim (Bool-cases (c == sep)) [
  | inl e ↦ rw e (tt, split-Lacks sep s)
  | inr e ↦ rw e (on_head-Lacks sep c (split sep s) (ground arith) (split-Lacks sep s))
]

true_ne_false : true ≢ false
true_ne_false e = cc

statements-IsStatement :
    (parts : List Text) → All (Lacks b';') parts → All IsStatement (statements parts)
unfolding statements
statements-IsStatement [] h = tt
statements-IsStatement (p ∷ ps) (h, hs) = elim (Bool-cases (text_eq (trim_space p) [])) [
  | inl e ↦ rw e (statements-IsStatement ps hs)
  | inr e ↦ rw e (
    trim_space-IsStatement p h (λ z. true_ne_false (sym ((text_eq_iff (trim_space p) []).1 z) ∙ e)),
    statements-IsStatement ps hs,
  )
]

-- Every statement of a file is a text that is not blank, has no space at its ends and has no
-- semicolon, and nothing of the file is lost or moved: but for spaces and semicolons, the statements
-- put together are the lines that are no comment (that do not start with two dashes behind spaces).
pub split_statements-IsStatement :
    (body : Text)
    → All IsStatement (split_statements body)
      × (concat_map solid (split_statements body) ≡ concat_map solid (sql_lines (split b'\n' body)))
unfolding split_statements
split_statements-IsStatement body = (
  statements-IsStatement _ (split-Lacks b';' _),
  solid-statements _ ∙ (solid-split _ ∙ solid-clean (split b'\n' body)),
)
