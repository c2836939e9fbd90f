-- ===== src/Schema/Apply/Sorted.antt =====
-- sort.Strings on the names of the files.
use mathlib.Core.List.{Perm}
use mathlib.Core.List.Perm
use remnanode_exporter.Prelude.{
  ◌≡◌, refl, inl, inr, true, false, List, [], ◌∷◌, arith, Bool-cases, Text,
}
use remnanode_exporter.Schema.Apply.{SqlFile, text_lt, insert_file, sort_files}

-- no name is less than the one before it
abbrev pub IsSorted : List SqlFile → Type 0
IsSorted [] = Unit {0}
IsSorted (f ∷ []) = Unit {0}
IsSorted (f ∷ g ∷ gs) = (text_lt g.name f.name ≡ false) × IsSorted (g ∷ gs)

text_lt_asymm : (s t : Text) → text_lt s t ≡ true → text_lt t s ≡ false
unfolding text_lt
text_lt_asymm s [] h = cc
text_lt_asymm [] (d ∷ t) h = refl
text_lt_asymm (c ∷ s) (d ∷ t) h = ground (arith, text_lt_asymm s t)

-- what stands first behind an insertion is not less than what stood before the list
IsSorted-insert_file :
    (f g : SqlFile) (gs : List SqlFile)
    → text_lt g.name f.name ≡ true
    → IsSorted (g ∷ gs)
    → IsSorted (insert_file f gs)
    → IsSorted (g ∷ insert_file f gs)
unfolding insert_file
IsSorted-insert_file f g [] e h k = (text_lt_asymm g.name f.name e, k)
IsSorted-insert_file f g (x ∷ gs) e (h, hs) k = elim (Bool-cases (text_lt x.name f.name)) [
  | inl o ↦ rw o (h, rw o at k)
  | inr o ↦ rw o (text_lt_asymm g.name f.name e, rw o at k)
]

IsSorted-behind : (f : SqlFile) (fs : List SqlFile) → IsSorted (f ∷ fs) → IsSorted fs
IsSorted-behind f [] h = tt
IsSorted-behind f (g ∷ gs) (h, hs) = hs

insert_file-IsSorted : (f : SqlFile) (gs : List SqlFile) → IsSorted gs → IsSorted (insert_file f gs)
unfolding insert_file
insert_file-IsSorted f [] h = tt
insert_file-IsSorted f (g ∷ gs) h = elim (Bool-cases (text_lt g.name f.name)) [
  | inl e ↦
      rw e (IsSorted-insert_file f g gs e h (insert_file-IsSorted f gs (IsSorted-behind g gs h)))
  | inr e ↦ rw e (e, h)
]

pub sort_files-IsSorted : (fs : List SqlFile) → IsSorted (sort_files fs)
unfolding sort_files
sort_files-IsSorted [] = tt
sort_files-IsSorted (f ∷ fs) = insert_file-IsSorted f (sort_files fs) (sort_files-IsSorted fs)

insert_file-Perm : (f : SqlFile) (gs : List SqlFile) → Perm (insert_file f gs) (f ∷ gs)
unfolding insert_file
insert_file-Perm f [] = Perm.refl (f ∷ [])
insert_file-Perm f (g ∷ gs) = elim (Bool-cases (text_lt g.name f.name)) [
  | inl e ↦ rw e (Perm.trans (Perm.cons g (insert_file-Perm f gs)) (Perm.swap f g gs))
  | inr e ↦ rw e (Perm.refl (f ∷ g ∷ gs))
]

pub sort_files-Perm : (fs : List SqlFile) → Perm (sort_files fs) fs
unfolding sort_files
sort_files-Perm [] = Perm.refl []
sort_files-Perm (f ∷ fs) =
    Perm.trans (insert_file-Perm f (sort_files fs)) (Perm.cons f (sort_files-Perm fs))
