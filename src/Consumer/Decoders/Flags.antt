-- ===== src/Consumer/Decoders/Flags.antt =====
-- The decoder of node connections behind a refresh of the nodes.
use remnanode_exporter.Strings.{trim_space}
use remnanode_exporter.Sink.{Conn}
use remnanode_exporter.Consumer.Decoders.{
  node_connections_decode, user_rows, ip_rows, is_infra, rows_of_result,
}
use remnanode_exporter.Dict.{response, Syncer}
use remnanode_exporter.Dict.Refresh.Own.{sync_nodes-infra}
use remnanode_exporter.Dict.Nodes.{sync_nodes}
use remnanode_exporter.Events.{Row, txt, u8}
use remnanode_exporter.Geoip.{Info}
use remnanode_exporter.Infra.{IpSet, contains, node_addresses, replace}
use remnanode_exporter.Infra.Members.{replace-contains_iff}
use remnanode_exporter.Infra.Nodes.{IsNamed, texts_of, node_addresses_iff}
use remnanode_exporter.Model.{
  Time, Codec, Fields, NodeConnections, ConnUser, ConnIp, parse_node_connections,
}
use remnanode_exporter.Netip.{Addr, Netip, unmap}
use remnanode_exporter.Panel.{bool_to_u8, ApiNode}
use remnanode_exporter.Prelude.{
  ℕ, String, ◌≡◌, refl, ◌↔◌, Bool, true, false, Option, some, List, [], ◌∷◌, ◌++◌, Text, take, drop,
  concat_map, ok,
}

module _ {A B : Type 0} (P : A → B → Type 0) where
  -- the two lists have the same length, and P holds of their elements in turn
  abbrev pub Each : List A → List B → Type 0
  Each [] [] = Unit
  Each [] (y ∷ ys) = ⊥
  Each (x ∷ xs) [] = ⊥
  Each (x ∷ xs) (y ∷ ys) = P x y × Each xs ys

  Each-append :
      (xs xs' : List A) (ys ys' : List B) → Each xs ys → Each xs' ys' → Each (xs ++ xs') (ys ++ ys')
  Each-append [] xs' [] ys' h k = k
  Each-append [] xs' (y ∷ ys) ys' h k = absurd h
  Each-append (x ∷ xs) xs' [] ys' h k = absurd h
  Each-append (x ∷ xs) xs' (y ∷ ys) ys' (p, h) k = (p, Each-append xs xs' ys ys' h k)

flag_iff : (b : Bool) → (u8 (bool_to_u8 b) ∷ [] ≡ u8 1 ∷ []) ↔ (b ≡ true)
unfolding bool_to_u8
flag_iff true = (λ h. refl, λ h. refl)
flag_iff false = (λ h. cc, λ h. cc)

-- the columns ip and is_infra of a row
abbrev pub Flags : (Text → Type 0) → ConnIp → Row → Type 0
Flags Own i row = (take 1 (drop 3 row) ≡ txt i.ip ∷ []) × ((drop 11 row ≡ u8 1 ∷ []) ↔ Own i.ip)

module _ (c : Codec) (geo : Text → Info) (has : Text → Bool) (Own : Text → Type 0)
    (own : (t : Text) → (has t ≡ true) ↔ Own t) where
  ip_rows-Flags :
      (m : NodeConnections) (user : ℕ) (is : List ConnIp)
      → Each (Flags Own) is (ip_rows c geo (some has) m user is)
  unfolding ip_rows is_infra
  ip_rows-Flags m user [] = tt
  ip_rows-Flags m user (i ∷ is) = (
    (
      refl,
      (
        λ h. (own i.ip).0 ((flag_iff (has i.ip)).0 h),
        λ h. (flag_iff (has i.ip)).1 ((own i.ip).1 h),
      ),
    ),
    ip_rows-Flags m user is,
  )

  user_rows-Flags :
      (m : NodeConnections) (us : List ConnUser)
      → Each (Flags Own) (concat_map (λ (u : ConnUser). u.ips) us) (user_rows c geo (some has) m us)
  unfolding user_rows
  user_rows-Flags m [] = tt
  user_rows-Flags m (u ∷ us) =
      Each-append (Flags Own) u.ips _ _ _ (ip_rows-Flags m u.user_id u.ips) (user_rows-Flags m us)

module _ (ip : Netip) where
  -- the text is that of an address, and one of the texts of the nodes is that of the same address
  abbrev pub IsOwn : (Text → Option (List Text)) → List ApiNode → Text → Type 0
  IsOwn resolve nodes text =
      (a : Addr) × (ip.parse_addr (trim_space text) ≡ some a)
      × IsNamed ip (unmap a) (concat_map (texts_of ip resolve) nodes)

  contains-IsOwn :
      (resolve : Text → Option (List Text)) (nodes : List ApiNode) (old : IpSet) (text : Text)
      → (contains ip (some (replace (node_addresses ip nodes resolve) old)) text ≡ true)
        ↔ IsOwn resolve nodes text
  contains-IsOwn resolve nodes old text =
      let set = node_addresses ip nodes resolve in
      (
        λ h.
            let (a, e, m) = (replace-contains_iff ip set old text).0 h in
            (a, e, (node_addresses_iff ip resolve (unmap a) nodes).0 m),
        λ (a, e, m).
            (replace-contains_iff ip set old text).1
              (a, e, (node_addresses_iff ip resolve (unmap a) nodes).1 m),
      )

  -- The refresh of the nodes and the decoder of node connections agree: behind a syncNodes that got the
  -- panel's nodes, whatever ClickHouse did with them, an entry that parses is decoded to one row for
  -- each address of each of its users, in order, and in the row the column is_infra is 1 exactly when
  -- the address is that of one of the nodes: in the node's ips, its own address, or one that a name in
  -- the place of an address resolves to, where an IPv4-mapped address counts as the IPv4 one.
  pub refresh-decode-Flags :
      (db : String) (conn : Conn) (resolve : Text → Option (List Text)) (nodes : List ApiNode)
      (now : Time) (s : Syncer) (c : Codec) (geo : Text → Info) (f : Fields) (m : NodeConnections)
      → parse_node_connections c f ≡ ok m
      → let set = (sync_nodes db conn ip resolve (response 200 (some nodes)) now s).1.infra in
        (rows : List Row) × (node_connections_decode c geo (some (contains ip (some set))) f
          ≡ ok rows)
        × Each (Flags (IsOwn resolve nodes)) (concat_map (λ (u : ConnUser). u.ips) m.users) rows
  unfolding node_connections_decode rows_of_result
  refresh-decode-Flags db conn resolve nodes now s c geo f m e =
      let set = (sync_nodes db conn ip resolve (response 200 (some nodes)) now s).1.infra in
      let has : Text → Bool = contains ip (some set) in
      let own : (t : Text) → (has t ≡ true) ↔ IsOwn resolve nodes t = λ t.
        rw (sync_nodes-infra db ip conn resolve nodes now s)
          (contains-IsOwn resolve nodes s.infra t) in
      (
        user_rows c geo (some has) m m.users,
        rw e refl,
        user_rows-Flags c geo has (IsOwn resolve nodes) own m m.users,
      )
