-- ===== src/Panel.antt =====
-- The panel API's answers as internal/dict decodes them (dict.go, hwid.go, torrent.go), and the rows
-- made of them. A JSON `null` or missing field that decodes to a nil pointer is `none`.
pub mod Devices
pub mod Fit
use remnanode_exporter.Prelude.{
  ℕ, ◌+◌, ◌-◌, ◌*◌, ◌/◌, ◌^◌, String, Bool, Option, none, some, List, [], ◌∷◌, ltb, if◌then◌else◌,
  Text, ℤ, pos, negsuc, pos_part,
}
use remnanode_exporter.Model.{Time}
use remnanode_exporter.Events.{Cell, Row, at, u8, u32, u64, i64, txt, txts}
use remnanode_exporter.Geoip.{Info, no_info}

-- A finite float64: numerator / 2 ^ shift.
pub record Float : Type 0 where
  pub numerator : ℤ
  pub shift : ℕ

-- What a conversion out of its range gives, which Go leaves to the implementation, and
-- time.Parse(time.RFC3339Nano, s).
pub record Env : Type 0 where
  pub wide : ℕ → ℕ → ℕ
  pub time_parse : Text → Option Time

-- uint64(max(x, 0)) and uint32(max(x, 0))
unfoldable pub clamp_uint : Env → ℕ → Float → ℕ
clamp_uint env bits x =
    let n = pos_part x.numerator / 2 ^ x.shift in if ltb n (2 ^ bits) then n else env.wide bits n

-- uint64(x) of an int64
unfoldable pub to_u64 : ℤ → ℕ
to_u64 (pos n) = n
to_u64 (negsuc n) = 2 ^ 64 - (n + 1)

-- Unix(0, 0): 719162 days behind the zero time
abbrev pub epoch : Time
epoch = pos (719162 * 86400 * 1000000000)

unfoldable pub time_or_epoch : Option Time → Time
time_or_epoch none = epoch
time_or_epoch (some t) = t

-- parseTime
unfoldable pub parse_time : Env → Text → Time
unfolding time_or_epoch
parse_time env s = time_or_epoch (env.time_parse s)

unfoldable pub deref_string : Option Text → Text
deref_string none = []
deref_string (some s) = s

unfoldable pub deref_int : Option ℤ → ℤ
deref_int none = pos 0
deref_int (some v) = v

unfoldable pub bool_to_u8 : Bool → ℕ
bool_to_u8 b = if b then 1 else 0

pub record StreamUser : Type 0 where
  pub id : ℤ
  pub username : Text
  pub status : Text
  pub tag : Option Text
  pub traffic_limit_bytes : Float
  pub traffic_limit_strategy : Text
  pub hwid_device_limit : Option ℤ
  pub telegram_id : Option ℤ
  pub expire_at : Text
  pub created_at : Text
  pub sub_revoked_at : Option Text
  pub active_internal_squads : List Text
  pub used_traffic_bytes : Float
  pub lifetime_used_traffic_bytes : Float
  pub online_at : Option Text
  pub first_connected_at : Option Text
  pub last_connected_node_uuid : Option Text

abbrev pub user_columns : List String
user_columns =
    "user_id" ∷ "username" ∷ "status" ∷ "tag" ∷ "traffic_limit_bytes" ∷ "hwid_device_limit"
    ∷ "expire_at" ∷ "traffic_limit_strategy" ∷ "used_traffic_bytes" ∷ "lifetime_used_traffic_bytes"
    ∷ "telegram_id" ∷ "internal_squads" ∷ "created_at" ∷ "online_at" ∷ "first_connected_at"
    ∷ "sub_revoked_at" ∷ "last_connected_node_uuid" ∷ "updated_at" ∷ []

-- userRow
unfoldable pub user_row : Env → StreamUser → Time → Row
unfolding clamp_uint to_u64 parse_time deref_string deref_int
user_row env u now =
    u64 (to_u64 u.id)
    ∷ txt u.username
    ∷ txt u.status
    ∷ txt (deref_string u.tag)
    ∷ u64 (clamp_uint env 64 u.traffic_limit_bytes)
    ∷ i64 (deref_int u.hwid_device_limit)
    ∷ at (parse_time env u.expire_at)
    ∷ txt u.traffic_limit_strategy
    ∷ u64 (clamp_uint env 64 u.used_traffic_bytes)
    ∷ u64 (clamp_uint env 64 u.lifetime_used_traffic_bytes)
    ∷ i64 (deref_int u.telegram_id)
    ∷ txts u.active_internal_squads
    ∷ at (parse_time env u.created_at)
    ∷ at (parse_time env (deref_string u.online_at))
    ∷ at (parse_time env (deref_string u.first_connected_at))
    ∷ at (parse_time env (deref_string u.sub_revoked_at))
    ∷ txt (deref_string u.last_connected_node_uuid)
    ∷ at now
    ∷ []

pub record ApiNode : Type 0 where
  pub id : ℤ
  pub uuid : Text
  pub name : Text
  pub country_code : Text
  pub address : Text
  pub tags : Option (List Text)
  pub provider : Option Text
  pub ips : List Text

abbrev pub node_columns : List String
node_columns =
    "node_id" ∷ "uuid" ∷ "name" ∷ "country_code" ∷ "address" ∷ "provider" ∷ "tags" ∷ "updated_at"
    ∷ []

unfoldable pub or_no_tags : Option (List Text) → List Text
or_no_tags none = []
or_no_tags (some tags) = tags

-- nodeRow
unfoldable pub node_row : ApiNode → Time → Row
unfolding to_u64 deref_string or_no_tags
node_row n now =
    u64 (to_u64 n.id)
    ∷ txt n.uuid
    ∷ txt n.name
    ∷ txt n.country_code
    ∷ txt n.address
    ∷ txt (deref_string n.provider)
    ∷ txts (or_no_tags n.tags)
    ∷ at now
    ∷ []
