-- ===== src/Panel/Devices.antt =====
-- internal/dict/hwid.go and torrent.go: the HWID devices and the Torrent Blocker reports, and the
-- rows made of them.
use remnanode_exporter.Prelude.{String, Bool, Option, none, some, List, [], ◌∷◌, Text, ℤ}
use remnanode_exporter.Model.{Time}
use remnanode_exporter.Events.{Row, at, u8, u32, u64, txt}
use remnanode_exporter.Geoip.{Info, no_info}
use remnanode_exporter.Panel.{Env, Float, parse_time, clamp_uint, to_u64, deref_string, bool_to_u8}

pub record HwidDevice : Type 0 where
  pub hwid : Text
  pub user_id : ℤ
  pub platform : Option Text
  pub os_version : Option Text
  pub device_model : Option Text
  pub user_agent : Option Text
  pub request_ip : Option Text
  pub created_at : Text
  pub updated_at : Text

abbrev pub hwid_columns : List String
hwid_columns =
    "user_id" ∷ "hwid" ∷ "platform" ∷ "os_version" ∷ "device_model" ∷ "user_agent" ∷ "request_ip"
    ∷ "created_at" ∷ "updated_at" ∷ "synced_at" ∷ []

-- hwidRow
unfoldable pub hwid_row : Env → HwidDevice → Time → Row
unfolding parse_time deref_string to_u64
hwid_row env d synced_at =
    u64 (to_u64 d.user_id)
    ∷ txt d.hwid
    ∷ txt (deref_string d.platform)
    ∷ txt (deref_string d.os_version)
    ∷ txt (deref_string d.device_model)
    ∷ txt (deref_string d.user_agent)
    ∷ txt (deref_string d.request_ip)
    ∷ at (parse_time env d.created_at)
    ∷ at (parse_time env d.updated_at)
    ∷ at synced_at
    ∷ []

pub record TorrentReport : Type 0 where
  pub id : ℤ
  pub user_id : ℤ
  pub node_id : ℤ
  pub blocked : Bool
  pub ip : Text
  pub block_duration : Float
  pub protocol : Option Text
  pub network : Text
  pub destination : Text
  pub inbound_tag : Option Text
  pub outbound_tag : Option Text
  pub created_at : Text

abbrev pub torrent_columns : List String
torrent_columns =
    "ts" ∷ "report_id" ∷ "node_id" ∷ "user_id" ∷ "ip" ∷ "ip_prefix" ∷ "country" ∷ "city" ∷ "asn"
    ∷ "as_org" ∷ "is_hosting" ∷ "blocked" ∷ "block_seconds" ∷ "destination" ∷ "network" ∷ "protocol"
    ∷ "inbound_tag" ∷ "outbound_tag" ∷ []

-- the nil test for the resolver, which is its Lookup
unfoldable pub geo_info : Option (Text → Info) → Text → Info
geo_info none addr = no_info
geo_info (some lookup) addr = lookup addr

-- torrentRow
unfoldable pub torrent_row : Env → TorrentReport → Option (Text → Info) → Row
unfolding parse_time deref_string to_u64 bool_to_u8 clamp_uint geo_info
torrent_row env r geo =
    let info = geo_info geo r.ip in
    at (parse_time env r.created_at)
    ∷ u64 (to_u64 r.id)
    ∷ u64 (to_u64 r.node_id)
    ∷ u64 (to_u64 r.user_id)
    ∷ txt r.ip
    ∷ txt info.prefix
    ∷ txt info.country
    ∷ txt info.city
    ∷ u32 info.asn
    ∷ txt info.as_org
    ∷ u8 (bool_to_u8 info.is_hosting)
    ∷ u8 (bool_to_u8 r.blocked)
    ∷ u32 (clamp_uint env 32 r.block_duration)
    ∷ txt r.destination
    ∷ txt r.network
    ∷ txt (deref_string r.protocol)
    ∷ txt (deref_string r.inbound_tag)
    ∷ txt (deref_string r.outbound_tag)
    ∷ []
