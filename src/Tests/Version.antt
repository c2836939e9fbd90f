-- ===== src/Tests/Version.antt =====
-- Runs of the version check of internal/dict/dict.go.
use remnanode_exporter.Prelude.{◌≡◌, refl, true, some, codes, pos}
use remnanode_exporter.Dict.{response, get_json, decoded}
use remnanode_exporter.Dict.Version.{
  parse_panel_version, read_parts, split_n, version_of, leading_int, leading_digits, ok_option,
  check_version, note_of_answer, note_of_version, less, ne_ℤ, too_old,
}
use remnanode_exporter.Dict.Version.Spelled.{
  IsVersion, WarnsOld, parse_panel_version_iff, check_version-WarnsOld,
}
use remnanode_exporter.Strings.{
  cut, trim_prefix, trim_space, trim_left, trim_right, is_space, has_prefix, drop_prefix,
}
use remnanode_exporter.Strconv.{atoi, parse_uint, scan, signed}

parsed :
    parse_panel_version (codes " v3.0.12-dev\n")
    ≡ some (record { major = pos 3; minor = pos 0; patch = pos 12 })
unfolding parse_panel_version read_parts split_n version_of leading_int leading_digits ok_option cut
    trim_prefix trim_space trim_left trim_right is_space has_prefix drop_prefix atoi parse_uint scan
    signed
parsed = refl

parse_panel_version_iff_example :
    IsVersion
      (trim_prefix (trim_space (codes " v3.0.12-dev\n")) (codes "v"))
      (record { major = pos 3; minor = pos 0; patch = pos 12 })
parse_panel_version_iff_example =
    (parse_panel_version_iff (codes " v3.0.12-dev\n")
        (record { major = pos 3; minor = pos 0; patch = pos 12 })).0
      parsed

warned : check_version true (response 200 (some (codes " v3.0.12-dev\n"))) ≡ too_old
unfolding check_version get_json decoded note_of_answer note_of_version less ne_ℤ
warned = rw parsed refl

check_version-WarnsOld_example : WarnsOld true (response 200 (some (codes " v3.0.12-dev\n")))
check_version-WarnsOld_example =
    (check_version-WarnsOld true (response 200 (some (codes " v3.0.12-dev\n")))).0 warned
