-- ===== src/Dict/Version/Spelled.antt =====
-- The versions that parsePanelVersion reads, and how checkVersion compares them.
use remnanode_exporter.Prelude.{
  ℕ, suc, ◌≡◌, refl, sym, ap, ◌∙◌, ◌↔◌, ◌⊎◌, inl, inr, Bool, true, false, Option, none, some, [],
  ◌∷◌, ◌++◌, arith, Option-cases, Text, codes, Result, ok, err, ℤ, pos, ◌<ℤ◌, subst,
}
use remnanode_exporter.Strings.{cut, trim_prefix, trim_space}
use remnanode_exporter.Strings.Parts.{Lacks, cut-IsCut, cut-append, IsCut}
use remnanode_exporter.Dict.Version.{
  split_n, read_parts, parse_panel_version, version_of, PanelVersion,
}
use remnanode_exporter.Dict.Version.Leading.{IsLeading, leading_int_iff}
use remnanode_exporter.Dict.Version.{
  check_version, note_of_answer, note_of_version, less, ne_ℤ, min_panel_version, too_old,
}
use remnanode_exporter.Dict.{ApiError, response, transport_error, get_json, decoded, HttpAnswer}

-- Three numbers between dots, each with anything behind its digits, the last one with dots as well.
pub record IsVersion (s : Text) (v : PanelVersion) : Type 0 where
  pub first : Text
  pub second : Text
  pub third : Text
  pub spelled : s ≡ first ++ (b'.' ∷ (second ++ b'.' ∷ third))
  pub no_dot_first : Lacks b'.' first
  pub no_dot_second : Lacks b'.' second
  pub major : IsLeading first v.major
  pub minor : IsLeading second v.minor
  pub patch : IsLeading third v.patch

version_of_sound :
    (a b c : Option ℤ) (v : PanelVersion)
    → version_of a b c ≡ some v
    → (a ≡ some v.major) × (b ≡ some v.minor) × (c ≡ some v.patch)
unfolding version_of
version_of_sound none b c v h = cc
version_of_sound (some x) none c v h = cc
version_of_sound (some x) (some y) none v h = cc
version_of_sound (some x) (some y) (some z) v h = (cc, cc, cc)

read_sound :
    (s : Text) (v : PanelVersion) (first second third : Text)
    → s ≡ first ++ (b'.' ∷ (second ++ b'.' ∷ third))
    → Lacks b'.' first
    → Lacks b'.' second
    → read_parts (first ∷ second ∷ third ∷ []) ≡ some v
    → IsVersion s v
unfolding read_parts
read_sound s v first second third e l1 l2 h =
    let (a, b, c) = version_of_sound _ _ _ v h in
    record {
      first = first;
      second = second;
      third = third;
      spelled = e;
      no_dot_first = l1;
      no_dot_second = l2;
      major = (leading_int_iff first v.major).0 a;
      minor = (leading_int_iff second v.minor).0 b;
      patch = (leading_int_iff third v.patch).0 c;
    }

IsCut-some : (s a b : Text) → cut b'.' s ≡ some (a, b) → (s ≡ a ++ b'.' ∷ b) × Lacks b'.' a
IsCut-some s a b e = subst (IsCut b'.' s) e (cut-IsCut b'.' s)

split_n_last : (n : ℕ) (s : Text) → cut b'.' s ≡ none → split_n b'.' (suc (suc n)) s ≡ s ∷ []
unfolding split_n
split_n_last n s e = rw (e, split_n) refl

split_n_more :
    (n : ℕ) (s a b : Text)
    → cut b'.' s ≡ some (a, b)
    → split_n b'.' (suc (suc n)) s ≡ a ∷ split_n b'.' (suc n) b
unfolding split_n
split_n_more n s a b e = rw (e, split_n) refl

split_n_three :
    (s a b c d : Text)
    → cut b'.' s ≡ some (a, b)
    → cut b'.' b ≡ some (c, d)
    → split_n b'.' 3 s ≡ a ∷ c ∷ d ∷ []
split_n_three s a b c d e f =
    split_n_more 1 s a b e ∙ ap (λ ps. a ∷ ps) (split_n_more 0 b c d f ∙ unfold split_n in refl)

parts_sound : (s : Text) (v : PanelVersion) → read_parts (split_n b'.' 3 s) ≡ some v → IsVersion s v
parts_sound s v h = elim (Option-cases (cut b'.' s)) [
  | inl e ↦
      let z : read_parts (split_n b'.' 3 s) ≡ none =
        rw (split_n_last 1 s e) (unfold read_parts in refl) in
      cc
  | inr ((a, b), e) ↦ elim (Option-cases (cut b'.' b)) [
    | inl f ↦
        let z : read_parts (split_n b'.' 3 s) ≡ none =
          rw (split_n_more 1 s a b e, split_n_last 0 b f) (unfold read_parts in refl) in
        cc
    | inr ((c, d), f) ↦
        let (es, la) = IsCut-some s a b e in
        let (eb, lc) = IsCut-some b c d f in
        read_sound s v a c d (es ∙ ap (λ x. a ++ b'.' ∷ x) eb) la lc
          (sym (ap read_parts (split_n_three s a b c d e f)) ∙ h)
  ]
]

parts_complete :
    (s : Text) (v : PanelVersion) → IsVersion s v → read_parts (split_n b'.' 3 s) ≡ some v
unfolding read_parts version_of
parts_complete s v h =
    let behind = h.second ++ b'.' ∷ h.third in
    let parts =
      split_n_three (h.first ++ b'.' ∷ behind) h.first behind h.second h.third
        (cut-append b'.' h.first behind h.no_dot_first)
        (cut-append b'.' h.second h.third h.no_dot_second) in
    rw
      (
        h.spelled,
        parts,
        (leading_int_iff h.first v.major).1 h.major,
        (leading_int_iff h.second v.minor).1 h.minor,
        (leading_int_iff h.third v.patch).1 h.patch,
      )
      refl

-- parsePanelVersion reads a version exactly when the text, trimmed of spaces and of one `v`, is three
-- parts with dots between them, the first two without a dot, and the digits that each part starts
-- with are a decimal numeral of an int: the version is those numbers, and nothing is read from any
-- other text.
pub parse_panel_version_iff :
    (s : Text) (v : PanelVersion)
    → (parse_panel_version s ≡ some v) ↔ IsVersion (trim_prefix (trim_space s) (codes "v")) v
unfolding parse_panel_version
parse_panel_version_iff s v =
    let t = trim_prefix (trim_space s) (codes "v") in (parts_sound t v, parts_complete t v)

-- older than 3.1.0
abbrev pub IsOld : PanelVersion → Type 0
IsOld v = (v.major <ℤ pos 3) ⊎ ((v.major ≡ pos 3) × (v.minor <ℤ pos 1))

-- what has to be there for the warning of checkVersion
pub record WarnsOld (credentials : Bool) (answer : HttpAnswer Text) : Type 0 where
  pub raw : Text
  pub version : PanelVersion
  pub asked : credentials ≡ true
  pub answered : answer ≡ response 200 (some raw)
  pub is_version : IsVersion (trim_prefix (trim_space raw) (codes "v")) version
  pub is_old : IsOld version

less_old :
    (v : PanelVersion) → (n : ℕ) → v.patch ≡ pos n → less v min_panel_version ≡ true → IsOld v
unfolding less ne_ℤ
less_old v n e h = ground arith

old_less : (v : PanelVersion) → IsOld v → less v min_panel_version ≡ true
unfolding less ne_ℤ
old_less v h = ground arith

answered_ok :
    (answer : HttpAnswer Text) (raw : Text)
    → get_json answer ≡ ok raw
    → answer ≡ response 200 (some raw)
unfolding get_json decoded
answered_ok transport_error raw h = cc
answered_ok (response code none) raw h = ground arith
answered_ok (response code (some t)) raw h = ground arith

noted_sound :
    (o : Option PanelVersion)
    → note_of_version o ≡ too_old
    → (v : PanelVersion) × (o ≡ some v) × (less v min_panel_version ≡ true)
unfolding note_of_version
noted_sound none h = cc
noted_sound (some v) h = (v, refl, ground arith)

answer_sound :
    (r : Result ApiError Text)
    → note_of_answer r ≡ too_old
    → (raw : Text) × (r ≡ ok raw) × (note_of_version (parse_panel_version raw) ≡ too_old)
unfolding note_of_answer
answer_sound (err e) h = cc
answer_sound (ok raw) h = (raw, refl, h)

warns_sound :
    (credentials : Bool) (answer : HttpAnswer Text)
    → check_version credentials answer ≡ too_old
    → WarnsOld credentials answer
unfolding check_version
warns_sound false answer h = cc
warns_sound true answer h =
    let (raw, answered, noted) = answer_sound (get_json answer) h in
    let (v, parsed, old) = noted_sound (parse_panel_version raw) noted in
    let version = (parse_panel_version_iff raw v).0 parsed in
    record {
      raw = raw;
      version = v;
      asked = refl;
      answered = answered_ok answer raw answered;
      is_version = version;
      is_old = less_old v version.patch.number version.patch.is_number old;
    }

warns_complete :
    (credentials : Bool) (answer : HttpAnswer Text)
    → WarnsOld credentials answer
    → check_version credentials answer ≡ too_old
unfolding check_version get_json decoded note_of_answer note_of_version
warns_complete credentials answer w =
    rw
      (
        w.asked,
        w.answered,
        (parse_panel_version_iff w.raw w.version).1 w.is_version,
        old_less w.version w.is_old,
      )
      refl

-- checkVersion warns of an old panel exactly when there are credentials and the panel answers 200 with a
-- version that can be read and that is older than 3.1.0.
pub check_version-WarnsOld :
    (credentials : Bool) (answer : HttpAnswer Text)
    → (check_version credentials answer ≡ too_old) ↔ WarnsOld credentials answer
check_version-WarnsOld credentials answer =
    (λ h. warns_sound credentials answer h, λ w. warns_complete credentials answer w)
