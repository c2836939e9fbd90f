-- ===== src/Model/Connections.antt =====
-- Which field maps ParseNodeConnections accepts, and what it makes of them.
use remnanode_exporter.Strconv.{parse_uint}
use remnanode_exporter.Prelude.{
  ℕ, ◌≡◌, refl, ◌↔◌, some, List, [], ◌∷◌, Text, Result, ok, >>=-eq-ok, subst,
}
use remnanode_exporter.Model.{
  bad_users_json, required, time, uint, check_version, schema_version, parse_node_connections,
  NodeConnections, bad_conn_user, ParseError, bad_last_seen, Time, or_fail, or_missing, ConnUser,
  ConnIp, conn_users, conn_ips, ConnUserJson, ConnIpJson, Codec, Fields,
}
use remnanode_exporter.Model.Fields.{
  HasField, required_sound, required_complete, uint_sound, uint_complete, check_version_sound,
  check_version_complete, time_sound, time_complete,
}
use remnanode_exporter.Model.Records.{or_fail-eq-ok, or_missing-eq-ok}
use remnanode_exporter.Strconv.ParseUint.{Spells, parse_uint_sound, parse_uint_complete}

module _ (c : Codec) where
  -- The decoded JSON users that `us` stands for, one by one.
  abbrev pub ReadsIps : List ConnIpJson → List ConnIp → Type 0
  ReadsIps [] [] = Unit
  ReadsIps [] (i ∷ is) = ⊥
  ReadsIps (j ∷ js) [] = ⊥
  ReadsIps (j ∷ js) (i ∷ is) =
      ((j.ip ≡ i.ip) × (c.time_parse j.last_seen ≡ some i.last_seen)) × ReadsIps js is

  abbrev pub ReadsUsers : List ConnUserJson → List ConnUser → Type 0
  ReadsUsers [] [] = Unit
  ReadsUsers [] (u ∷ us) = ⊥
  ReadsUsers (j ∷ js) [] = ⊥
  ReadsUsers (j ∷ js) (u ∷ us) =
      (Spells j.user_id u.user_id × ReadsIps j.ips u.ips) × ReadsUsers js us

  ReadsIps-cons :
      (j : ConnIpJson) (js : List ConnIpJson) (is rest : List ConnIp) (seen : Time)
      → c.time_parse j.last_seen ≡ some seen
      → ReadsIps js rest
      → ◌≡◌ {A = Result ParseError (List ConnIp)}
          (ok (record { ip = j.ip; last_seen = seen } ∷ rest))
          (ok is)
      → ReadsIps (j ∷ js) is
  ReadsIps-cons j js [] rest seen p r h = cc
  ReadsIps-cons j js (i ∷ is) rest seen p r h = ((cc, cc), subst (ReadsIps js) (cc) r)

  conn_ips_sound :
      (js : List ConnIpJson) (is : List ConnIp) → conn_ips c js ≡ ok is → ReadsIps js is
  unfolding conn_ips
  conn_ips_sound [] [] h = tt
  conn_ips_sound [] (i ∷ is) h = cc
  conn_ips_sound (j ∷ js) is h =
      let (seen, e1, h1) =
        >>=-eq-ok (or_missing (bad_last_seen j.last_seen) (c.time_parse j.last_seen)) _ h in
      let (rest, e2, h2) = >>=-eq-ok (conn_ips c js) _ h1 in
      ReadsIps-cons j js is rest seen (or_missing-eq-ok _ _ _ e1) (conn_ips_sound js rest e2) h2

  conn_ips_complete :
      (js : List ConnIpJson) (is : List ConnIp) → ReadsIps js is → conn_ips c js ≡ ok is
  unfolding conn_ips or_missing
  conn_ips_complete [] [] h = refl
  conn_ips_complete [] (i ∷ is) h = absurd h
  conn_ips_complete (j ∷ js) [] h = absurd h
  conn_ips_complete (j ∷ js) (i ∷ is) ((e, p), h) = rw (p, conn_ips_complete js is h, e)

  ReadsUsers-cons :
      (j : ConnUserJson) (js : List ConnUserJson) (us rest : List ConnUser) (n : ℕ)
      (is : List ConnIp)
      → Spells j.user_id n
      → ReadsIps j.ips is
      → ReadsUsers js rest
      → ◌≡◌ {A = Result ParseError (List ConnUser)}
          (ok (record { user_id = n; ips = is } ∷ rest))
          (ok us)
      → ReadsUsers (j ∷ js) us
  ReadsUsers-cons j js [] rest n is s p r h = cc
  ReadsUsers-cons j js (u ∷ us) rest n is s p r h = (
    (subst (Spells j.user_id) (cc) s, subst (ReadsIps j.ips) (cc) p),
    subst (ReadsUsers js) (cc) r,
  )

  conn_users_sound :
      (js : List ConnUserJson) (us : List ConnUser) → conn_users c js ≡ ok us → ReadsUsers js us
  unfolding conn_users
  conn_users_sound [] [] h = tt
  conn_users_sound [] (u ∷ us) h = cc
  conn_users_sound (j ∷ js) us h =
      let (n, e1, h1) =
        >>=-eq-ok (or_fail (λ _. bad_conn_user j.user_id) (parse_uint j.user_id)) _ h in
      let (is, e2, h2) = >>=-eq-ok (conn_ips c j.ips) _ h1 in
      let (rest, e3, h3) = >>=-eq-ok (conn_users c js) _ h2 in
      ReadsUsers-cons j js us rest n is (parse_uint_sound j.user_id n (or_fail-eq-ok _ _ _ e1))
        (conn_ips_sound j.ips is e2) (conn_users_sound js rest e3) h3

  conn_users_complete :
      (js : List ConnUserJson) (us : List ConnUser) → ReadsUsers js us → conn_users c js ≡ ok us
  unfolding conn_users or_fail
  conn_users_complete [] [] h = refl
  conn_users_complete [] (u ∷ us) h = absurd h
  conn_users_complete (j ∷ js) [] h = absurd h
  conn_users_complete (j ∷ js) (u ∷ us) ((s, p), h) = rw (
    parse_uint_complete j.user_id u.user_id s,
    conn_ips_complete j.ips u.ips p,
    conn_users_complete js us h,
  )

  -- What a node_connections entry must hold for `m` to be its meaning.
  pub record IsNodeConnections (f : Fields) (m : NodeConnections) : Type 0 where
    pub node : Text
    pub ts : Text
    pub raw : Text
    pub decoded : List ConnUserJson
    pub version : HasField f "v" schema_version
    pub node_field : HasField f "nodeId" node
    pub node_spells : Spells node m.node_id
    pub ts_field : HasField f "ts" ts
    pub ts_parses : c.time_parse ts ≡ some m.ts
    pub users_field : HasField f "users" raw
    pub users_json : c.users_decode raw ≡ some decoded
    pub users_read : ReadsUsers decoded m.users

  node_connections_sound :
      (f : Fields) (m : NodeConnections) → parse_node_connections c f ≡ ok m → IsNodeConnections f m
  unfolding parse_node_connections
  node_connections_sound f m h =
      let (v, e1, h1) = >>=-eq-ok (check_version f) _ h in
      let (n, e2, h2) = >>=-eq-ok (uint f "nodeId") _ h1 in
      let (t, e3, h3) = >>=-eq-ok (time c f "ts") _ h2 in
      let (raw, e4, h4) = >>=-eq-ok (required f "users") _ h3 in
      let (js, e5, h5) = >>=-eq-ok (or_missing bad_users_json (c.users_decode raw)) _ h4 in
      let (us, e6, h6) = >>=-eq-ok (conn_users c js) _ h5 in
      let (node, nf, ns) = uint_sound f "nodeId" m.node_id (cc) in
      let (ts, tf, tp) = time_sound c f "ts" m.ts (cc) in
      record {
        node = node;
        ts = ts;
        raw = raw;
        decoded = js;
        version = check_version_sound f v e1;
        node_field = nf;
        node_spells = ns;
        ts_field = tf;
        ts_parses = tp;
        users_field = required_sound f "users" raw e4;
        users_json = or_missing-eq-ok _ _ _ e5;
        users_read = conn_users_sound js m.users (cc);
      }

  node_connections_complete :
      (f : Fields) (m : NodeConnections) → IsNodeConnections f m → parse_node_connections c f ≡ ok m
  unfolding parse_node_connections or_missing
  node_connections_complete f m h = rw (
    check_version_complete f h.version,
    uint_complete f "nodeId" h.node m.node_id h.node_field h.node_spells,
    time_complete c f "ts" h.ts m.ts h.ts_field h.ts_parses,
    required_complete f "users" h.raw h.users_field,
    h.users_json,
    conn_users_complete h.decoded m.users h.users_read,
  )

  -- ParseNodeConnections returns `m` with no error exactly when the entry has version 1, its nodeId
  -- is a uint64 numeral for the node of `m`, its ts parses to the time of `m`, and its users decode
  -- as JSON to the users of `m`, in order: each userId a uint64 numeral, each address kept as it is
  -- with the time that its lastSeen parses to.
  pub parse_node_connections_iff :
      (f : Fields) (m : NodeConnections)
      → (parse_node_connections c f ≡ ok m) ↔ IsNodeConnections f m
  parse_node_connections_iff f m = (node_connections_sound f m, node_connections_complete f m)
