-- ===== src/Schema/Solid.antt =====
-- What splitting a file keeps of it: everything but spaces and semicolons.
use remnanode_exporter.Prelude.{
  ℕ, ◌≡◌, refl, sym, ap, ◌∙◌, inl, inr, Bool, true, false, ◌||◌, List, [], ◌∷◌, ◌++◌, append_assoc,
  arith, ◌==◌, if◌then◌else◌, Bool-cases, Text, codes, text_eq, text_eq_iff, concat_map,
}
use remnanode_exporter.Strings.{
  has_prefix, is_space, on_head, trim_space, trim_right, split, trim_left,
}
use remnanode_exporter.Schema.{is_comment, clean, statements}

-- what is left of a text without its spaces and semicolons
abbrev pub solid : Text → Text
solid [] = []
solid (c ∷ s) = if is_space c || c == b';' then solid s else c ∷ solid s

-- the lines of a file that are no comment
abbrev pub sql_lines : List Text → List Text
sql_lines [] = []
sql_lines (l ∷ ls) =
    if has_prefix (trim_space l) (codes "--") then sql_lines ls else l ∷ sql_lines ls

solid-append : (xs ys : Text) → solid (xs ++ ys) ≡ solid xs ++ solid ys
solid-append [] ys = refl
solid-append (c ∷ xs) ys = elim (Bool-cases (is_space c || c == b';')) [
  | inl e ↦ rw e (solid-append xs ys)
  | inr e ↦ rw e (ap (λ x. c ∷ x) (solid-append xs ys))
]

solid_space : (c : ℕ) (s : Text) → is_space c ≡ true → solid (c ∷ s) ≡ solid s
solid_space c s e = rw e refl

solid_dropped :
    (b : Bool) (c : ℕ) (s t : Text)
    → is_space c ≡ b
    → solid t ≡ solid s
    → solid (if b then t else c ∷ s) ≡ solid (c ∷ s)
solid_dropped true c s t e h = h ∙ sym (solid_space c s e)
solid_dropped false c s t e h = refl

solid-trim_left : (s : Text) → solid (trim_left is_space s) ≡ solid s
unfolding trim_left
solid-trim_left [] = refl
solid-trim_left (c ∷ s) =
    solid_dropped (is_space c) c s (trim_left is_space s) refl (solid-trim_left s)

solid_cons : (c : ℕ) (s t : Text) → solid s ≡ solid t → solid (c ∷ s) ≡ solid (c ∷ t)
solid_cons c s t h = elim (Bool-cases (is_space c || c == b';')) [
  | inl e ↦ rw e h
  | inr e ↦ rw e (ap (λ x. c ∷ x) h)
]

solid-trim_right_cons :
    (b : Bool) (c : ℕ) (s t : Text)
    → is_space c ≡ b
    → solid t ≡ solid s
    → solid (elim t [ [] ↦ if b then [] else c ∷ [] | d ∷ u ↦ c ∷ d ∷ u ]) ≡ solid (c ∷ s)
solid-trim_right_cons true c s [] e h = h ∙ sym (solid_space c s e)
solid-trim_right_cons false c s [] e h = solid_cons c [] s h
solid-trim_right_cons b c s (d ∷ u) e h = solid_cons c (d ∷ u) s h

solid-trim_right : (s : Text) → solid (trim_right is_space s) ≡ solid s
unfolding trim_right
solid-trim_right [] = refl
solid-trim_right (c ∷ s) =
    solid-trim_right_cons (is_space c) c s (trim_right is_space s) refl (solid-trim_right s)

solid-trim_space : (s : Text) → solid (trim_space s) ≡ solid s
unfolding trim_space
solid-trim_space s = solid-trim_right (trim_left is_space s) ∙ solid-trim_left s

solid-on_head :
    (c : ℕ) (ps : List Text)
    → concat_map solid (on_head (λ p. c ∷ p) ps) ≡ solid (c ∷ []) ++ concat_map solid ps
unfolding on_head
solid-on_head c [] = refl
solid-on_head c (p ∷ ps) =
    ap (λ x. x ++ concat_map solid ps) (solid-append (c ∷ []) p) ∙ append_assoc (solid (c ∷ [])) _ _

solid_separator : (c : ℕ) (s : Text) → (c == b';') ≡ true → solid (c ∷ s) ≡ solid s
solid_separator c s e = ground (arith, e)

solid_parts :
    (b : Bool) (c : ℕ) (s : Text) (ps : List Text)
    → (c == b';') ≡ b
    → concat_map solid ps ≡ solid s
    → concat_map solid (if b then [] ∷ ps else on_head (λ p. c ∷ p) ps) ≡ solid (c ∷ s)
solid_parts true c s ps e h = h ∙ sym (solid_separator c s e)
solid_parts false c s ps e h =
    solid-on_head c ps ∙ ap (λ x. solid (c ∷ []) ++ x) h ∙ sym (solid-append (c ∷ []) s)

pub solid-split : (s : Text) → concat_map solid (split b';' s) ≡ solid s
unfolding split
solid-split [] = refl
solid-split (c ∷ s) = solid_parts (c == b';') c s (split b';' s) refl (solid-split s)

pub solid-statements :
    (parts : List Text) → concat_map solid (statements parts) ≡ concat_map solid parts
unfolding statements
solid-statements [] = refl
solid-statements (p ∷ ps) = elim (Bool-cases (text_eq (trim_space p) [])) [
  | inl e ↦
      let nothing : solid p ≡ [] =
        sym (solid-trim_space p) ∙ ap solid ((text_eq_iff (trim_space p) []).0 e) in
      rw e (solid-statements ps ∙ ap (λ x. x ++ concat_map solid ps) (sym nothing))
  | inr e ↦ rw e (
      ap (λ x. x ++ concat_map solid (statements ps)) (solid-trim_space p)
      ∙ ap (λ x. solid p ++ x) (solid-statements ps))
]

pub solid-clean : (ls : List Text) → solid (clean ls) ≡ concat_map solid (sql_lines ls)
unfolding clean is_comment
solid-clean [] = refl
solid-clean (l ∷ ls) = elim (Bool-cases (has_prefix (trim_space l) (codes "--"))) [
  | inl e ↦ rw e (solid-clean ls)
  | inr e ↦ rw e (
      solid-append l (b'\n' ∷ clean ls)
      ∙ ap (λ x. solid l ++ x)
          (solid_space b'\n' (clean ls) (unfold is_space in refl) ∙ solid-clean ls))
]
