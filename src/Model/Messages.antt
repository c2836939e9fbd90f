-- ===== src/Model/Messages.antt =====
-- Which field maps ParseUserUsage and ParseSubRequest accept, and what they make of them.
use remnanode_exporter.Prelude.{◌≡◌, ◌≢◌, ◌↔◌, some, [], Text, ok, >>=-eq-ok}
use remnanode_exporter.Model.{
  parse_records, required, time, uint, split, field_str, check_version, schema_version,
  parse_sub_request, SubRequest, parse_user_usage, UserUsage, Codec, Fields,
}
use remnanode_exporter.Model.Fields.{
  HasField, IsOptional, IsFirst, required_sound, required_complete, uint_sound, uint_complete,
  check_version_sound, check_version_complete, time_sound, time_complete, or_empty_sound,
  or_empty_complete, first_str_sound, first_str_complete,
}
use remnanode_exporter.Model.Records.{Unpacks, parse_records_iff}
use remnanode_exporter.Strconv.ParseUint.{Spells}

module _ (c : Codec) where
  -- What a user_usage entry must hold for `m` to be its meaning.
  pub record IsUserUsage (f : Fields) (m : UserUsage) : Type 0 where
    pub node : Text
    pub ts : Text
    pub records : Text
    pub version : HasField f "v" schema_version
    pub node_field : HasField f "nodeId" node
    pub node_spells : Spells node m.node_id
    pub ts_field : HasField f "ts" ts
    pub ts_parses : c.time_parse ts ≡ some m.ts
    pub records_field : HasField f "records" records
    pub unpacked : Unpacks (split b';' records) m.records
    pub nonempty : m.records ≢ []

  user_usage_sound : (f : Fields) (m : UserUsage) → parse_user_usage c f ≡ ok m → IsUserUsage f m
  unfolding parse_user_usage
  user_usage_sound f m h =
      let (v, e1, h1) = >>=-eq-ok (check_version f) _ h in
      let (n, e2, h2) = >>=-eq-ok (uint f "nodeId") _ h1 in
      let (t, e3, h3) = >>=-eq-ok (time c f "ts") _ h2 in
      let (raw, e4, h4) = >>=-eq-ok (required f "records") _ h3 in
      let (rs, e5, h5) = >>=-eq-ok (parse_records raw) _ h4 in
      let (node, nf, ns) = uint_sound f "nodeId" m.node_id (cc) in
      let (ts, tf, tp) = time_sound c f "ts" m.ts (cc) in
      let (u, ne) = (parse_records_iff raw m.records).0 (cc) in
      record {
        node = node;
        ts = ts;
        records = raw;
        version = check_version_sound f v e1;
        node_field = nf;
        node_spells = ns;
        ts_field = tf;
        ts_parses = tp;
        records_field = required_sound f "records" raw e4;
        unpacked = u;
        nonempty = ne;
      }

  user_usage_complete : (f : Fields) (m : UserUsage) → IsUserUsage f m → parse_user_usage c f ≡ ok m
  unfolding parse_user_usage
  user_usage_complete f m h = rw (
    check_version_complete f h.version,
    uint_complete f "nodeId" h.node m.node_id h.node_field h.node_spells,
    time_complete c f "ts" h.ts m.ts h.ts_field h.ts_parses,
    required_complete f "records" h.records h.records_field,
    (parse_records_iff h.records m.records).1 (h.unpacked, h.nonempty),
  )

  -- ParseUserUsage returns `m` with no error exactly when the entry has version 1, its nodeId is a
  -- uint64 numeral for the node of `m`, its ts parses to the time of `m`, and its records are a
  -- packing of the records of `m`, of which there is at least one.
  pub parse_user_usage_iff :
      (f : Fields) (m : UserUsage) → (parse_user_usage c f ≡ ok m) ↔ IsUserUsage f m
  parse_user_usage_iff f m = (user_usage_sound f m, user_usage_complete f m)

  -- What a subscription_requests entry must hold for `m` to be its meaning.
  pub record IsSubRequest (f : Fields) (m : SubRequest) : Type 0 where
    pub user : Text
    pub at : Text
    pub version : HasField f "v" schema_version
    pub user_field : HasField f "userId" user
    pub user_spells : Spells user m.user_id
    pub at_field : HasField f "requestAt" at
    pub at_parses : c.time_parse at ≡ some m.request_at
    pub ip_field : IsOptional f "requestIp" m.ip
    pub agent_field : IsOptional f "userAgent" m.user_agent
    pub rule_field : IsOptional f "srrRuleName" m.rule_name
    pub response_field : IsFirst f "srrResponseType" "ssrResponseType" m.response_type

  sub_request_sound :
      (f : Fields) (m : SubRequest) → parse_sub_request c f ≡ ok m → IsSubRequest f m
  unfolding parse_sub_request
  sub_request_sound f m h =
      let (v, e1, h1) = >>=-eq-ok (check_version f) _ h in
      let (n, e2, h2) = >>=-eq-ok (uint f "userId") _ h1 in
      let (t, e3, h3) = >>=-eq-ok (time c f "requestAt") _ h2 in
      let (user, nf, ns) = uint_sound f "userId" m.user_id (cc) in
      let (at, tf, tp) = time_sound c f "requestAt" m.request_at (cc) in
      record {
        user = user;
        at = at;
        version = check_version_sound f v e1;
        user_field = nf;
        user_spells = ns;
        at_field = tf;
        at_parses = tp;
        ip_field = or_empty_sound (field_str f "requestIp") m.ip (cc);
        agent_field = or_empty_sound (field_str f "userAgent") m.user_agent (cc);
        rule_field = or_empty_sound (field_str f "srrRuleName") m.rule_name (cc);
        response_field = first_str_sound f "srrResponseType" "ssrResponseType" m.response_type (cc);
      }

  sub_request_complete :
      (f : Fields) (m : SubRequest) → IsSubRequest f m → parse_sub_request c f ≡ ok m
  unfolding parse_sub_request
  sub_request_complete f m h = rw (
    check_version_complete f h.version,
    uint_complete f "userId" h.user m.user_id h.user_field h.user_spells,
    time_complete c f "requestAt" h.at m.request_at h.at_field h.at_parses,
    or_empty_complete (field_str f "requestIp") m.ip h.ip_field,
    or_empty_complete (field_str f "userAgent") m.user_agent h.agent_field,
    or_empty_complete (field_str f "srrRuleName") m.rule_name h.rule_field,
    first_str_complete f "srrResponseType" "ssrResponseType" m.response_type h.response_field,
  )

  -- ParseSubRequest returns `m` with no error exactly when the entry has version 1, its userId is a
  -- uint64 numeral for the user of `m`, its requestAt parses to the time of `m`, the address, the
  -- user agent and the rule name of `m` are the optional fields (empty when missing), and the
  -- response type of `m` is srrResponseType when that carries a text and ssrResponseType otherwise.
  pub parse_sub_request_iff :
      (f : Fields) (m : SubRequest) → (parse_sub_request c f ≡ ok m) ↔ IsSubRequest f m
  parse_sub_request_iff f m = (sub_request_sound f m, sub_request_complete f m)
