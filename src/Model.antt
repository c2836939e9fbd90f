-- ===== src/Model.antt =====
-- internal/model/model.go: the payloads of the three export streams. `time_parse` stands for
-- time.Parse(time.RFC3339Nano, s) and `users_decode` for json.Unmarshal into []connUserJSON.
pub mod Records
pub mod Fields
pub mod Connections
pub mod Messages
use remnanode_exporter.Prelude.{
  ℕ, String, Option, none, some, List, [], ◌∷◌, str_eq, if◌then◌else◌, Text, codes, text_eq, Result,
  ok, err, ◌>>=◌, ℤ,
}
use remnanode_exporter.Strings.{split, cut}
use remnanode_exporter.Strconv.{NumError, parse_uint}

-- A time.Time, as its distance in nanoseconds from Go's zero time (January 1 of the year 1, UTC).
abbrev pub Time : Type 0
Time = ℤ

abbrev pub stream_user_usage : String
stream_user_usage = "ioraw:export:user_usage"

abbrev pub stream_sub_requests : String
stream_sub_requests = "ioraw:export:subscription_requests"

abbrev pub stream_node_connections : String
stream_node_connections = "ioraw:export:node_connections"

abbrev pub schema_version : Text
schema_version = codes "1"

pub record UsageRecord : Type 0 where
  pub user_id : ℕ
  pub bytes : ℕ

pub record UserUsage : Type 0 where
  pub ts : Time
  pub node_id : ℕ
  pub records : List UsageRecord

pub record SubRequest : Type 0 where
  pub request_at : Time
  pub user_id : ℕ
  pub ip : Text
  pub user_agent : Text
  pub response_type : Text
  pub rule_name : Text

pub record ConnIp : Type 0 where
  pub ip : Text
  pub last_seen : Time

pub record ConnUser : Type 0 where
  pub user_id : ℕ
  pub ips : List ConnIp

pub record NodeConnections : Type 0 where
  pub ts : Time
  pub node_id : ℕ
  pub users : List ConnUser

-- a dynamic value of the field map; `other` carries what fmt.Sprint prints of it
pub data Value : Type 0 where
  nil : Value
  str other : Text → Value

-- Fields, a map from names to values
abbrev pub Fields : Type 0
Fields = List (String × Value)

pub data ParseError : Type 0 where
  missing_field : String → ParseError
  unsupported_version : Text → ParseError
  bad_number : String → NumError → ParseError
  bad_time : String → ParseError
  malformed_record bad_user_id bad_total_bytes : Text → ParseError
  empty_records : ParseError
  bad_users_json : ParseError
  bad_conn_user : Text → ParseError
  bad_last_seen : Text → ParseError

unfoldable pub get_field : String → Fields → Option Value
get_field key [] = none
get_field key ((k, v) ∷ f) = if str_eq k key then some v else get_field key f

unfoldable pub value_str : Option Value → Option Text
value_str none = none
value_str (some nil) = none
value_str (some (str s)) = some s
value_str (some (other s)) = some s

-- Fields.str
unfoldable pub field_str : Fields → String → Option Text
unfolding get_field value_str
field_str f key = value_str (get_field key f)

unfoldable pub or_empty : Option Text → Text
or_empty none = []
or_empty (some s) = s

-- Fields.firstStr
unfoldable pub first_str : Fields → List String → Text
unfolding or_empty
first_str f [] = []
first_str f (key ∷ keys) =
    let s = or_empty (field_str f key) in if text_eq s [] then first_str f keys else s

-- Fields.required
unfoldable pub required : Fields → String → Result ParseError Text
unfolding or_empty
required f key =
    let s = or_empty (field_str f key) in if text_eq s [] then err (missing_field key) else ok s

-- Fields.checkVersion
unfoldable pub check_version : Fields → Result ParseError Text
check_version f = do
  v ← required f "v"
  if text_eq v schema_version then ok v else err (unsupported_version v)

-- a number error under another error
unfoldable pub or_fail {ℓ} :
    {A : Type ℓ} → (NumError → ParseError) → Result NumError A → Result ParseError A
or_fail f (ok a) = ok a
or_fail f (err e) = err (f e)

unfoldable pub or_missing {ℓ} : {A : Type ℓ} → ParseError → Option A → Result ParseError A
or_missing e none = err e
or_missing e (some a) = ok a

-- Fields.uint
unfoldable pub uint : Fields → String → Result ParseError ℕ
unfolding or_fail
uint f key = do s ← required f key; or_fail (bad_number key) (parse_uint s)

-- the body of the loop of parseRecords, behind the test for an empty pair
unfoldable pub parse_pair : Text → Result ParseError UsageRecord
unfolding or_missing or_fail
parse_pair pair = do
  halves ← or_missing (malformed_record pair) (cut b':' pair)
  user ← or_fail (λ _. bad_user_id pair) (parse_uint halves.0)
  total ← or_fail (λ _. bad_total_bytes pair) (parse_uint halves.1)
  ok (record { user_id = user; bytes = total })

unfoldable pub parse_pairs : List Text → Result ParseError (List UsageRecord)
parse_pairs [] = ok []
parse_pairs (pair ∷ pairs) =
    let rest = parse_pairs pairs in
    if text_eq pair [] then rest else do r ← parse_pair pair; rs ← rest; ok (r ∷ rs)

unfoldable pub not_empty : List UsageRecord → Result ParseError (List UsageRecord)
not_empty [] = err empty_records
not_empty (r ∷ rs) = ok (r ∷ rs)

-- parseRecords
unfoldable pub parse_records : Text → Result ParseError (List UsageRecord)
unfolding not_empty
parse_records raw = do rs ← parse_pairs (split b';' raw); not_empty rs

pub record ConnIpJson : Type 0 where
  pub ip : Text
  pub last_seen : Text

pub record ConnUserJson : Type 0 where
  pub user_id : Text
  pub ips : List ConnIpJson

-- What the parsers take from Go's time and encoding/json.
pub record Codec : Type 0 where
  pub time_parse : Text → Option Time
  pub users_decode : Text → Option (List ConnUserJson)

module _ (c : Codec) where
  -- Fields.time; `t.UTC()` is the same instant
  unfoldable pub time : Fields → String → Result ParseError Time
  unfolding or_missing
  time f key = do s ← required f key; or_missing (bad_time key) (c.time_parse s)

  -- ParseUserUsage
  unfoldable pub parse_user_usage : Fields → Result ParseError UserUsage
  parse_user_usage f = do
    v ← check_version f
    node ← uint f "nodeId"
    at ← time f "ts"
    raw ← required f "records"
    recs ← parse_records raw
    ok (record { ts = at; node_id = node; records = recs })

  -- ParseSubRequest
  unfoldable pub parse_sub_request : Fields → Result ParseError SubRequest
  unfolding or_empty
  parse_sub_request f = do
    v ← check_version f
    user ← uint f "userId"
    at ← time f "requestAt"
    ok (record {
      request_at = at;
      user_id = user;
      ip = or_empty (field_str f "requestIp");
      user_agent = or_empty (field_str f "userAgent");
      response_type = first_str f ("srrResponseType" ∷ "ssrResponseType" ∷ []);
      rule_name = or_empty (field_str f "srrRuleName");
    })

  unfoldable pub conn_ips : List ConnIpJson → Result ParseError (List ConnIp)
  unfolding or_missing
  conn_ips [] = ok []
  conn_ips (j ∷ js) = do
    seen ← or_missing (bad_last_seen j.last_seen) (c.time_parse j.last_seen)
    rest ← conn_ips js
    ok (record { ip = j.ip; last_seen = seen } ∷ rest)

  unfoldable pub conn_users : List ConnUserJson → Result ParseError (List ConnUser)
  unfolding or_fail
  conn_users [] = ok []
  conn_users (u ∷ us) = do
    user ← or_fail (λ _. bad_conn_user u.user_id) (parse_uint u.user_id)
    addrs ← conn_ips u.ips
    rest ← conn_users us
    ok (record { user_id = user; ips = addrs } ∷ rest)

  -- ParseNodeConnections
  unfoldable pub parse_node_connections : Fields → Result ParseError NodeConnections
  unfolding or_missing
  parse_node_connections f = do
    v ← check_version f
    node ← uint f "nodeId"
    at ← time f "ts"
    raw ← required f "users"
    decoded ← or_missing bad_users_json (c.users_decode raw)
    us ← conn_users decoded
    ok (record { ts = at; node_id = node; users = us })
