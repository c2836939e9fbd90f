-- ===== src/Tests/Schema.antt =====
-- Runs of Split at a concrete file.
use remnanode_exporter.Schema.Solid.{sql_lines, solid}
use remnanode_exporter.Schema.Apply.{SqlFile, apply}
use remnanode_exporter.Schema.Apply.Order.{AppliesInOrder, apply-AppliesInOrder}
use remnanode_exporter.Strings.Parts.{join}
use remnanode_exporter.Schema.Statements.{
  split_statements-comment, split_statements-IsStatement, IsStatement,
}
use remnanode_exporter.Schema.{split_statements, is_comment}
use remnanode_exporter.Prelude.{
  String, ◌≡◌, refl, not, some, List, [], ◌∷◌, arith, Text, codes, text_eq, concat_map, All,
}
use remnanode_exporter.Strings.{split, is_space, trim_right, trim_left, trim_space, has_prefix}

abbrev create : Text
create = codes "CREATE t;"

abbrev remark : Text
remark = codes "  -- a; b"

split_statements-comment_example :
    split_statements (join b'\n' (create ∷ remark ∷ create ∷ []))
    ≡ split_statements (join b'\n' (create ∷ create ∷ []))
unfolding is_comment has_prefix trim_space trim_left trim_right is_space
split_statements-comment_example =
    split_statements-comment (create ∷ []) (create ∷ []) remark (ground arith) (λ h. cc) refl

split_statements-IsStatement_example :
    All IsStatement (split_statements create)
    × (concat_map solid (split_statements create)
        ≡ concat_map solid (sql_lines (split b'\n' create)))
split_statements-IsStatement_example = split_statements-IsStatement create

abbrev file : String → String → SqlFile
file name body = record { name = codes name; body = some (codes body) }

-- two files, and a server that refuses the empty statement only
abbrev files : List SqlFile
files = file "002_b.sql" "CREATE b" ∷ file "001_a.sql" "CREATE {db}.a" ∷ []

apply-AppliesInOrder_example :
    AppliesInOrder
      (codes "d")
      (λ call. not (text_eq call.statement []))
      files
      (apply (codes "d") (λ call. not (text_eq call.statement [])) (some files))
apply-AppliesInOrder_example =
    apply-AppliesInOrder (codes "d") (λ call. not (text_eq call.statement [])) files
