-- ===== src/Schema.antt =====
-- internal/schema/schema.go: Split, which cuts an embedded SQL file into statements.
pub mod Apply
pub mod Tables
pub mod Solid
pub mod Statements
use remnanode_exporter.Prelude.{Bool, List, [], ◌∷◌, ◌++◌, if◌then◌else◌, Text, codes, text_eq}
use remnanode_exporter.Strings.{trim_space, has_prefix, split}

unfoldable pub is_comment : Text → Bool
is_comment line = has_prefix (trim_space line) (codes "--")

-- the first loop: the lines that are no comment, each with its newline again
unfoldable pub clean : List Text → Text
clean [] = []
clean (line ∷ lines) = if is_comment line then clean lines else line ++ b'\n' ∷ clean lines

-- the second loop
unfoldable pub statements : List Text → List Text
statements [] = []
statements (part ∷ parts) =
    let s = trim_space part in if text_eq s [] then statements parts else s ∷ statements parts

-- Split
unfoldable pub split_statements : Text → List Text
split_statements body = statements (split b';' (clean (split b'\n' body)))
