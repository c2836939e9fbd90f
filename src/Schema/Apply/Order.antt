-- ===== src/Schema/Apply/Order.antt =====
-- Apply runs the statements of the sorted files one after the other, up to the first failure.
use mathlib.Core.List.{Perm}
use remnanode_exporter.Schema.Apply.Sorted.{IsSorted, sort_files-IsSorted, sort_files-Perm}
use remnanode_exporter.Prelude.{
  ℕ, ◌+◌, ◌≡◌, refl, ap, ◌≢◌, ◌↔◌, ◌⊎◌, inl, inr, Bool, true, none, some, List, [], ◌∷◌, ◌++◌,
  if◌then◌else◌, Bool-cases, Option-cases, Text, All-split, All, All-append, Result, ok, err,
}
use remnanode_exporter.Schema.Apply.{
  Call, apply_file, sort_files, apply_files, and_then, exec_failed, file_statements, exec_all,
  ApplyError, SqlFile, apply,
}

module _ (db : Text) (exec : Call → Bool) where
  -- the statements of a file behind the first `i`
  abbrev pub numbered : Text → ℕ → List Text → List Call
  numbered name i [] = []
  numbered name i (stmt ∷ stmts) =
      record { file = name; number = i + 1; statement = stmt } ∷ numbered name (i + 1) stmts

  -- the statements of the files in order, as far as the files can be read
  abbrev pub planned : List SqlFile → List Call
  planned [] = []
  planned (f ∷ fs) = elim f.body [
    | none ↦ []
    | some body ↦ numbered f.name 0 (file_statements db exec body) ++ planned fs
  ]

  -- a run of statements: up to the first that fails, that one included
  abbrev pub ran_of : List Call → List Call
  ran_of [] = []
  ran_of (stmt ∷ stmts) = if exec stmt then stmt ∷ ran_of stmts else stmt ∷ []

  abbrev Runs : List Call → Type 0
  Runs ss = All (λ s. exec s ≡ true) ss

  -- a run that ends, and one that a failure ends
  abbrev Ended : List Call → Result ApplyError (Unit {0}) × List Call → Type 0
  Ended ss (r, ran) = (r ≡ ok tt) × Runs ss × (ran ≡ ss)

  record Failed (ss : List Call) (r : Result ApplyError (Unit {0})) (ran : List Call) : Type 0 where
    error : ApplyError
    returned : r ≡ err error
    stops : (ys : List Call) → ran ≡ ran_of (ss ++ ys)
    refused : Runs ss → ⊥

  ran_of-append : (xs ys : List Call) → Runs xs → ran_of (xs ++ ys) ≡ xs ++ ran_of ys
  ran_of-append [] ys h = refl
  ran_of-append (x ∷ xs) ys (e, h) = rw (e, ran_of-append xs ys h) refl

  exec_all-cases :
      (name : Text) (i : ℕ) (ss : List Text)
      → Ended (numbered name i ss) (exec_all db exec name i ss)
        ⊎ Failed (numbered name i ss) (exec_all db exec name i ss).0 (exec_all db exec name i ss).1
  unfolding exec_all
  exec_all-cases name i [] = inl (refl, tt, refl)
  exec_all-cases name i (s ∷ ss) =
      elim (Bool-cases (exec (record { file = name; number = i + 1; statement = s }))) [
        | inr e ↦ rw e (
            inr (record {
              error = exec_failed name (i + 1);
              returned = refl;
              stops = λ ys. rw e refl;
              refused = λ (h, hs). cc;
            }))
        | inl e ↦ elim (exec_all-cases name (i + 1) ss) [
          | inl (r, h, ran) ↦ rw e (
              inl (
                r,
                (refl, h),
                ap (λ x. record { file = name; number = i + 1; statement = s } ∷ x) ran,
              ))
          | inr f ↦ rw e (
              inr (record {
                error = f.error;
                returned = f.returned;
                stops = λ ys. rw e (
                    ap (λ x. record { file = name; number = i + 1; statement = s } ∷ x)
                      (f.stops ys));
                refused = λ (h, hs). f.refused hs;
              }))
        ]
      ]

  -- `ran` is the plan up to its first failure, and there is no error exactly when `readable` holds and
  -- every statement of the plan is run
  abbrev pub ApplySpec : Type 0 → List Call → Result ApplyError (Unit {0}) × List Call → Type 0
  ApplySpec readable plan (r, ran) = (ran ≡ ran_of plan) × ((r ≡ ok tt) ↔ (readable × Runs plan))

  and_then-ApplySpec :
      (ss plan : List Call) (readable : Type 0) (p rest : Result ApplyError (Unit {0}) × List Call)
      → Ended ss p ⊎ Failed ss p.0 p.1
      → ApplySpec readable plan rest
      → ApplySpec readable (ss ++ plan) (and_then db exec p rest)
  unfolding and_then
  and_then-ApplySpec ss plan readable (ok u, ran) rest (inr f) spec = let e = f.returned in cc
  and_then-ApplySpec ss plan readable (ok u, ran) rest (inl (r, h, e)) (same, back) = (
    rw (e, same, ran_of-append ss plan h) refl,
    (
      λ z. let (a, b) = back.0 z in (a, All-append (λ s. exec s ≡ true) ss plan h b),
      λ (a, b). back.1 (a, (All-split (λ s. exec s ≡ true) ss plan b).1),
    ),
  )
  and_then-ApplySpec ss plan readable (err e, ran) rest (inl (r, h, z)) spec = cc
  and_then-ApplySpec ss plan readable (err e, ran) rest (inr f) spec = (
    f.stops plan,
    (λ z. cc, λ (a, b). absurd (f.refused (All-split (λ s. exec s ≡ true) ss plan b).0)),
  )

  abbrev pub Readable : List SqlFile → Type 0
  Readable fs = All (λ (f : SqlFile). f.body ≢ none) fs

  ApplySpec-mono :
      (R S : Type 0) (plan : List Call) (p : Result ApplyError (Unit {0}) × List Call)
      → (R → S)
      → (S → R)
      → ApplySpec R plan p
      → ApplySpec S plan p
  ApplySpec-mono R S plan p f g (e, back) =
      (e, (λ z. let (a, b) = back.0 z in (f a, b), λ (a, b). back.1 (g a, b)))

  apply_files-ApplySpec :
      (fs : List SqlFile) → ApplySpec (Readable fs) (planned fs) (apply_files db exec fs)
  unfolding apply_files apply_file
  apply_files-ApplySpec [] = (refl, (λ z. (tt, tt), λ z. refl))
  apply_files-ApplySpec (f ∷ fs) = elim (Option-cases f.body) [
    | inl e ↦ rw e (refl, (λ z. cc, λ (a, b). absurd (a.0 refl)))
    | inr (body, e) ↦
        let rest = apply_files-ApplySpec fs in
        rw e (
          ApplySpec-mono (Readable fs) ((some body ≢ none) × Readable fs)
            (numbered f.name 0 (file_statements db exec body) ++ planned fs)
            (and_then db exec (exec_all db exec f.name 0 (file_statements db exec body))
              (apply_files db exec fs))
            (λ a. (λ z. cc, a)) (λ a. a.1)
            (and_then-ApplySpec (numbered f.name 0 (file_statements db exec body)) (planned fs)
              (Readable fs) (exec_all db exec f.name 0 (file_statements db exec body))
              (apply_files db exec fs) (exec_all-cases f.name 0 (file_statements db exec body))
              rest))
  ]

  pub record AppliesInOrder (fs : List SqlFile) (r : Result ApplyError (Unit {0}) × List Call)
      : Type 0 where
    pub ordered : List SqlFile
    pub same_files : Perm ordered fs
    pub by_name : IsSorted ordered
    pub applied : ApplySpec (Readable ordered) (planned ordered) r

  -- Apply takes the files, each once, in an order in which no name is less than the one before it. It
  -- runs of each file the statements that Split gives behind the replacement of {db}, and stops
  -- behind the first that ClickHouse refuses or before the first file that cannot be read; it returns
  -- no error exactly when every file can be read and every statement is accepted.
  pub apply-AppliesInOrder : (fs : List SqlFile) → AppliesInOrder fs (apply db exec (some fs))
  unfolding apply
  apply-AppliesInOrder fs = record {
    ordered = sort_files fs;
    same_files = sort_files-Perm fs;
    by_name = sort_files-IsSorted fs;
    applied = apply_files-ApplySpec (sort_files fs);
  }
