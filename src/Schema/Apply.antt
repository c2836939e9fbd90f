-- ===== src/Schema/Apply.antt =====
-- internal/schema/schema.go: Apply, which runs the statements of every embedded file.
use remnanode_exporter.Strings.{has_prefix}
pub mod Sorted
pub mod Order
use remnanode_exporter.Prelude.{
  ℕ, zero, suc, ◌+◌, ◌-◌, Bool, true, false, Option, none, some, List, [], ◌∷◌, ◌++◌, ltb, ◌==◌,
  if◌then◌else◌, Text, codes, length, Result, ok, err,
}
use remnanode_exporter.Schema.{split_statements}

-- an entry of the embedded folder: its name, and what ReadFile gives for it
pub record SqlFile : Type 0 where
  pub name : Text
  pub body : Option Text

pub data ApplyError : Type 0 where
  read_dir : ApplyError
  read_file : Text → ApplyError
  -- the file and the number of the statement in it, from 1
  exec_failed : Text → ℕ → ApplyError

-- s < t of two strings
unfoldable pub text_lt : Text → Text → Bool
text_lt s [] = false
text_lt [] (d ∷ t) = true
text_lt (c ∷ s) (d ∷ t) = if c == d then text_lt s t else ltb c d

-- sort.Strings, on the entries by their names
unfoldable pub insert_file : SqlFile → List SqlFile → List SqlFile
insert_file f [] = f ∷ []
insert_file f (g ∷ gs) = if text_lt g.name f.name then g ∷ insert_file f gs else f ∷ g ∷ gs

unfoldable pub sort_files : List SqlFile → List SqlFile
unfolding insert_file text_lt
sort_files [] = []
sort_files (f ∷ fs) = insert_file f (sort_files fs)

-- strings.ReplaceAll of a text that is not empty; the number counts what is left of a match
unfoldable pub replace_from : Text → Text → ℕ → Text → Text
replace_from old new k [] = []
replace_from old new (suc k) (c ∷ s) = replace_from old new k s
replace_from old new zero (c ∷ s) = elim (has_prefix (c ∷ s) old) [
  | true ↦ new ++ replace_from old new (length old - 1) s
  | false ↦ c ∷ replace_from old new 0 s
]

unfoldable pub replace_all : Text → Text → Text → Text
replace_all s old new = replace_from old new 0 s

-- one call of Exec: the file, the number of the statement in it, from 1, and the statement
pub record Call : Type 0 where
  pub file : Text
  pub number : ℕ
  pub statement : Text

-- ClickHouse, as the answer to each call; the calls are listed, one that fails with them
module _ (db : Text) (exec : Call → Bool) where
  -- the inner loop: `i` counts the statements before
  unfoldable pub exec_all : Text → ℕ → List Text → Result ApplyError (Unit {0}) × List Call
  exec_all name i [] = (ok tt, [])
  exec_all name i (stmt ∷ stmts) =
      let (r, ran) = exec_all name (i + 1) stmts in
      let call : Call = record { file = name; number = i + 1; statement = stmt } in
      if exec call then (r, call ∷ ran) else (err (exec_failed name (i + 1)), call ∷ [])

  unfoldable pub file_statements : Text → List Text
  file_statements body = split_statements (replace_all body (codes "{db}") db)

  unfoldable pub apply_file : SqlFile → Result ApplyError (Unit {0}) × List Call
  apply_file f = elim f.body [
    | none ↦ (err (read_file f.name), [])
    | some body ↦ exec_all f.name 0 (file_statements body)
  ]

  -- what follows one file: the rest, unless it failed
  unfoldable pub and_then :
      Result ApplyError (Unit {0}) × List Call
      → Result ApplyError (Unit {0}) × List Call
      → Result ApplyError (Unit {0}) × List Call
  and_then (err e, ran) rest = (err e, ran)
  and_then (ok u, ran) rest = (rest.0, ran ++ rest.1)

  unfoldable pub apply_files : List SqlFile → Result ApplyError (Unit {0}) × List Call
  unfolding and_then apply_file
  apply_files [] = (ok tt, [])
  apply_files (f ∷ fs) = and_then (apply_file f) (apply_files fs)

  -- Apply; `none` is an error of ReadDir
  unfoldable pub apply : Option (List SqlFile) → Result ApplyError (Unit {0}) × List Call
  apply none = (err read_dir, [])
  apply (some files) = apply_files (sort_files files)
