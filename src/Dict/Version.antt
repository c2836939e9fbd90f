-- ===== src/Dict/Version.antt =====
-- internal/dict/dict.go: the version of the panel, and how the two preflights end.
pub mod Spelled
pub mod Leading
use remnanode_exporter.Prelude.{
  ℕ, zero, suc, Bool, not, ◌&&◌, ◌||◌, Option, none, some, List, [], ◌∷◌, leb, ◌==◌, if◌then◌else◌,
  Text, codes, length, Result, ok, err, ℤ, pos, ltb_ℤ,
}
use remnanode_exporter.Strings.{cut, trim_prefix, trim_space}
use remnanode_exporter.Strconv.{atoi, NumError}
use remnanode_exporter.Dict.{ApiError, status_error, other_error, get_json, HttpAnswer}
use remnanode_exporter.Panel.{Env, Float, clamp_uint}

-- panelVersion
pub record PanelVersion : Type 0 where
  pub major : ℤ
  pub minor : ℤ
  pub patch : ℤ

abbrev pub min_panel_version : PanelVersion
min_panel_version = record { major = pos 3; minor = pos 1; patch = pos 0 }

unfoldable pub ne_ℤ : ℤ → ℤ → Bool
ne_ℤ a b = ltb_ℤ a b || ltb_ℤ b a

-- panelVersion.less
unfoldable pub less : PanelVersion → PanelVersion → Bool
unfolding ne_ℤ
less v o =
    if ne_ℤ v.major o.major
    then ltb_ℤ v.major o.major
    else if ne_ℤ v.minor o.minor
    then ltb_ℤ v.minor o.minor
    else ltb_ℤ v.patch o.patch

-- strings.SplitN at a separator of one character
unfoldable pub split_n : ℕ → ℕ → Text → List Text
split_n sep zero s = []
split_n sep (suc zero) s = s ∷ []
split_n sep (suc (suc n)) s = elim (cut sep s) [
  | none ↦ s ∷ []
  | some (part, rest) ↦ part ∷ split_n sep (suc n) rest
]

-- s[:end] behind the loop of leadingInt
unfoldable pub leading_digits : Text → Text
leading_digits [] = []
leading_digits (c ∷ s) = if leb b'0' c && leb c b'9' then c ∷ leading_digits s else []

unfoldable pub ok_option {ℓ} : {A : Type ℓ} → Result NumError A → Option A
ok_option (ok a) = some a
ok_option (err e) = none

-- leadingInt
unfoldable pub leading_int : Text → Option ℤ
unfolding ok_option
leading_int s =
    let digits = leading_digits s in if length digits == 0 then none else ok_option (atoi digits)

-- the loop of parsePanelVersion, over three parts
unfoldable pub version_of : Option ℤ → Option ℤ → Option ℤ → Option PanelVersion
version_of (some a) (some b) (some c) = some (record { major = a; minor = b; patch = c })
version_of _ _ _ = none

unfoldable pub read_parts : List Text → Option PanelVersion
unfolding version_of
read_parts (a ∷ b ∷ c ∷ []) = version_of (leading_int a) (leading_int b) (leading_int c)
read_parts _ = none

-- parsePanelVersion
unfoldable pub parse_panel_version : Text → Option PanelVersion
unfolding read_parts
parse_panel_version s = read_parts (split_n b'.' 3 (trim_prefix (trim_space s) (codes "v")))

-- the messages of logPreflightSkip
pub data Skip : Type 0 where
  no_endpoint no_scope failed : Skip

unfoldable pub skip_of_code : ℕ → Skip
skip_of_code code =
    if code == 404 || code == 405
    then no_endpoint
    else if code == 401 || code == 403
    then no_scope
    else failed

unfoldable pub log_preflight_skip : ApiError → Skip
unfolding skip_of_code
log_preflight_skip (status_error code) = skip_of_code code
log_preflight_skip other_error = skip_of_code 0

-- what checkVersion logs
pub data VersionNote : Type 0 where
  not_asked unreadable too_old supported : VersionNote
  skipped : Skip → VersionNote

unfoldable pub note_of_version : Option PanelVersion → VersionNote
note_of_version none = unreadable
note_of_version (some v) = if less v min_panel_version then too_old else supported

unfoldable pub note_of_answer : Result ApiError Text → VersionNote
unfolding note_of_version
note_of_answer (err e) = skipped (log_preflight_skip e)
note_of_answer (ok raw) = note_of_version (parse_panel_version raw)

-- checkVersion
unfoldable pub check_version : Bool → HttpAnswer Text → VersionNote
unfolding note_of_answer
check_version credentials answer =
    if not credentials then not_asked else note_of_answer (get_json answer)

-- configurationResponse
pub record Configuration : Type 0 where
  pub disable_user_usage_records : Bool
  pub disable_srh_records : Bool
  pub export_to_redis_stream : Bool
  pub user_usage_ignore_below_bytes : Float

-- what checkConfiguration logs
pub data ConfigurationNote : Type 0 where
  no_credentials : ConfigurationNote
  no_answer : Skip → ConfigurationNote
  not_publishing : ConfigurationNote
  -- the bytes below which usage is ignored, and the two flags
  publishing : ℕ → Bool → Bool → ConfigurationNote

unfoldable pub note_of_configuration : Env → Result ApiError Configuration → ConfigurationNote
note_of_configuration env (err e) = no_answer (log_preflight_skip e)
note_of_configuration env (ok c) =
    if not c.export_to_redis_stream
    then not_publishing
    else publishing (clamp_uint env 64 c.user_usage_ignore_below_bytes) c.disable_user_usage_records
        c.disable_srh_records

-- checkConfiguration
unfoldable pub check_configuration : Env → Bool → HttpAnswer Configuration → ConfigurationNote
unfolding note_of_configuration
check_configuration env credentials answer =
    if not credentials then no_credentials else note_of_configuration env (get_json answer)
