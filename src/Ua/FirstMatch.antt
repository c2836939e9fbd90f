-- ===== src/Ua/FirstMatch.antt =====
-- The rule that decides a classification.
use remnanode_exporter.Strings.{has_prefix, trim_space, to_lower}
use remnanode_exporter.Prelude.{
  ℕ, ◌≡◌, refl, ◌≢◌, ◌⊎◌, inl, inr, Bool, true, false, not, ◌&&◌, List, [], ◌∷◌, ◌++◌, Bool-cases,
  Text, codes, text_eq, All,
}
use remnanode_exporter.Ua.{
  browser_rules, bot_rules, script_rules, client, client_rules, rules, Kind, classify, unknown,
  first_match, Client, browser, script, bot, Rule,
}
use remnanode_exporter.Strings.{contains, has_prefix}

-- `r` is a rule of the list whose needle the text contains, behind rules whose needles it does not.
pub data IsFirst (s : Text) (r : Rule) : List Rule → Type 0 where
  here : {rs : List Rule} → contains s r.needle ≡ true → IsFirst s r (r ∷ rs)
  later :
      {q : Rule} {rs : List Rule}
      → contains s q.needle ≡ false
      → IsFirst s r rs
      → IsFirst s r (q ∷ rs)

abbrev pub MatchSpec : Text → List Rule → Client → Type 0
MatchSpec s rs c =
    ((r : Rule) × IsFirst s r rs × (c ≡ record { family = r.name; kind = r.kind }))
    ⊎ (All (λ (r : Rule). contains s r.needle ≡ false) rs
        × (c ≡ record { family = codes "Other"; kind = unknown }))

first_match-MatchSpec : (s : Text) (rs : List Rule) → MatchSpec s rs (first_match s rs)
unfolding first_match
first_match-MatchSpec s [] = inr (tt, refl)
first_match-MatchSpec s (r ∷ rs) = elim (Bool-cases (contains s r.needle)) [
  | inl hit ↦ rw hit (inl (r, here hit, refl))
  | inr miss ↦ rw miss (elim (first_match-MatchSpec s rs) [
    | inl (q, i, e) ↦ inl (q, later miss i, e)
    | inr (a, e) ↦ inr ((refl, a), e)
  ])
]

-- what Classify looks at
abbrev pub folded : (ℕ → ℕ) → Text → Text
folded fold raw = to_lower fold (trim_space raw)

not_empty : (s : Text) → s ≢ [] → text_eq s [] ≡ false
not_empty [] h = absurd (h refl)
not_empty (c ∷ s) h = refl

-- A User-Agent that is not blank is classified by the first rule of the table whose needle stands in
-- its lower-case form, and as Other and unknown exactly when no needle of the table does.
pub classify-MatchSpec :
    (fold : ℕ → ℕ) (raw : Text)
    → folded fold raw ≢ []
    → MatchSpec (folded fold raw) rules (classify fold raw)
unfolding classify
classify-MatchSpec fold raw h =
    rw (not_empty (folded fold raw) h) (first_match-MatchSpec (folded fold raw) rules)

-- some rule of the list has its needle in the text
abbrev pub Hits : Text → List Rule → Type 0
Hits s [] = ⊥
Hits s (r ∷ rs) = (contains s r.needle ≡ true) ⊎ Hits s rs

hit_kind :
    (s : Text) (k : Kind) (rs rest : List Rule)
    → All (λ (r : Rule). r.kind ≡ k) rs
    → Hits s rs
    → (first_match s (rs ++ rest)).kind ≡ k
unfolding first_match
hit_kind s k [] rest a h = absurd h
hit_kind s k (r ∷ rs) rest (e, a) h = elim (Bool-cases (contains s r.needle)) [
  | inl hit ↦ rw hit e
  | inr miss ↦ elim h [ inl hit ↦ cc | inr more ↦ rw miss (hit_kind s k rs rest a more) ]
]

-- a test that every rule of a list passes
abbrev all : (Rule → Bool) → List Rule → Bool
all p [] = true
all p (r ∷ rs) = p r && all p rs

All-of_all :
    (p : Rule → Bool) (P : Rule → Type 0) (rs : List Rule)
    → ((r : Rule) → p r ≡ true → P r)
    → all p rs ≡ true
    → All P rs
All-of_all p P [] f h = tt
All-of_all p P (r ∷ rs) f h = elim (Bool-cases (p r)) [
  | inl e ↦ (f r e, All-of_all p P rs f (rw e at h))
  | inr e ↦ let z : false ≡ true = rw e at h in cc
]

is_client_kind : Kind → Bool
is_client_kind client = true
is_client_kind browser = false
is_client_kind script = false
is_client_kind bot = false
is_client_kind unknown = false

is_client_kind_sound : (k : Kind) → is_client_kind k ≡ true → k ≡ client
unfolding is_client_kind
is_client_kind_sound client h = refl
is_client_kind_sound browser h = cc
is_client_kind_sound script h = cc
is_client_kind_sound bot h = cc
is_client_kind_sound unknown h = cc

not_hit :
    (s : Text) (rs : List Rule) → all (λ r. not (contains s r.needle)) rs ≡ true → Hits s rs → ⊥
not_hit s [] a h = h
not_hit s (r ∷ rs) a (inl e) = let z : false ≡ true = rw e at a in cc
not_hit s (r ∷ rs) a (inr h) = elim (Bool-cases (contains s r.needle)) [
  | inl e ↦ let z : false ≡ true = rw e at a in cc
  | inr e ↦ not_hit s rs (rw e at a) h
]

Hits-ne-nil : (s : Text) → Hits s client_rules → s ≢ []
unfolding contains has_prefix
Hits-ne-nil [] h = λ e. not_hit [] client_rules refl h
Hits-ne-nil (c ∷ s) h = λ e. cc

-- A User-Agent that carries the needle of a client rule is classified as a client, whatever needles of
-- scripts, bots and browsers it carries as well.
pub client_wins :
    (fold : ℕ → ℕ) (raw : Text)
    → Hits (folded fold raw) client_rules
    → (classify fold raw).kind ≡ client
unfolding classify is_client_kind
client_wins fold raw h = rw (not_empty (folded fold raw) (Hits-ne-nil (folded fold raw) h)) (
    hit_kind (folded fold raw) client client_rules (script_rules ++ bot_rules ++ browser_rules)
      (All-of_all (λ r. is_client_kind r.kind) _ client_rules (λ r. is_client_kind_sound r.kind)
        refl)
      h)
