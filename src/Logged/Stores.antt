-- ===== src/Logged/Stores.antt =====
-- What every insert and every other event keeps, over the stores of a refresh.
use remnanode_exporter.Model.{Time}
use remnanode_exporter.Netip.{Netip}
use remnanode_exporter.Panel.{node_columns, ApiNode}
use remnanode_exporter.Sink.{InsertError, Conn}
use remnanode_exporter.Events.{Row, Event, dict_size, dict_errors}
use remnanode_exporter.Logged.{LogLaws, IsQuiet}
use remnanode_exporter.Dict.{
  table_nodes, ApiError, store_rows, store_result, SyncError, optional_unavailable, sized, Syncer,
  emit, status_error, other_error, api, insert_failed, not_terminated, no_numeric_ids, out_of_fuel,
}
use remnanode_exporter.Dict.Refresh.{counted_optional, counted_unless, counted}
use remnanode_exporter.Dict.Nodes.{node_rows, refresh_infra, sync_decoded, store_nodes}
use remnanode_exporter.Logged.Rows.{RowLaws, nodes_hold}
use remnanode_exporter.Dict.Refresh.Effects.{rows_of}
use remnanode_exporter.Prelude.{
  ℕ, String, ◌≡◌, refl, sym, inl, inr, Bool, true, false, Option, List, [], ◌∷◌, arith, ◌==◌,
  Bool-cases, Text, length, All, Result, ok, err, subst,
}

module _ (P : String → List String → Row → Type 0) (Q : List Event → Type 0) (laws : LogLaws P Q)
    (made : RowLaws P) where
  abbrev Holds : Syncer → Type 0
  Holds s = Q s.log

  pub one : (e : Event) (s : Syncer) → IsQuiet e → Holds s → Holds (emit (e ∷ []) s)
  unfolding emit
  one e s q h = laws.append s.log (e ∷ []) h (laws.quiet e q)

  sized_logged :
      (table : String) (n : ℕ) (r : Result InsertError (Unit {0})) (events : List Event)
      (s : Syncer)
      → Q events
      → Holds s
      → Holds (sized table n (r, events) s).1
  unfolding sized emit
  sized_logged table n (err e) events s q h = laws.append s.log events h q
  sized_logged table n (ok u) events s q h =
      laws.append s.log _ h (laws.append events _ q (laws.quiet (dict_size table n) tt))

  pub counted_logged :
      (table : String) (r : Result SyncError (Unit {0})) (s : Syncer)
      → Holds s
      → Holds (counted table (r, s))
  unfolding counted
  counted_logged table (ok u) s h = h
  counted_logged table (err e) s h = one (dict_errors table) s tt h

  pub unavailable_log :
      (source : String) (e : SyncError) (s : Syncer)
      → (optional_unavailable source e s).1.log ≡ s.log
  unfolding optional_unavailable
  unavailable_log source (api other_error) s = refl
  unavailable_log source (insert_failed e) s = refl
  unavailable_log source not_terminated s = refl
  unavailable_log source (no_numeric_ids n) s = refl
  unavailable_log source out_of_fuel s = refl
  unavailable_log source (api (status_error code)) s = ground arith

  counted_unless_logged :
      (table : String) (b : Bool) (s : Syncer) → Holds s → Holds (counted_unless table (b, s))
  unfolding counted_unless
  counted_unless_logged table true s h = h
  counted_unless_logged table false s h = one (dict_errors table) s tt h

  pub counted_optional_logged :
      (table : String) (r : Result SyncError (Unit {0})) (s : Syncer)
      → Holds s
      → Holds (counted_optional table (r, s))
  unfolding counted_optional
  counted_optional_logged table (ok u) s h = h
  counted_optional_logged table (err e) s h =
      counted_unless_logged table _ _ (subst Q (sym (unavailable_log "HWID devices" e s)) h)

  module _ (db : String) (conn : Conn) where
    pub store_result_logged :
        (table : String) (cols : List String) (r : Result SyncError (List Row)) (s : Syncer)
        → All (P table cols) (rows_of r)
        → Holds s
        → Holds (store_result db conn table cols r s).1
    unfolding store_result store_rows
    store_result_logged table cols (err e) s a h = h
    store_result_logged table cols (ok []) s a h = h
    store_result_logged table cols (ok (row ∷ rows)) s a h =
        let some_rows : (length (row ∷ rows) == 0) ≡ false = ground arith in
        rw some_rows (
          sized_logged table (length (row ∷ rows)) _ _ s
            (laws.inserted db conn table cols (row ∷ rows) a) h)

    store_nodes_logged :
        (ip : Netip) (resolve : Text → Option (List Text)) (now : Time) (nodes : List ApiNode)
        (s : Syncer)
        → Holds s
        → Holds (store_nodes db conn ip resolve now nodes s).1
    unfolding store_nodes
    store_nodes_logged ip resolve now nodes s h =
        elim (Bool-cases (length (node_rows now nodes) == 0)) [
          | inl e ↦ rw e h
          | inr e ↦ rw e (
              sized_logged table_nodes (length (node_rows now nodes)) _ _ s
                (laws.inserted db conn table_nodes node_columns (node_rows now nodes)
                  (nodes_hold P made now nodes))
                h)
        ]

    pub decoded_logged :
        (ip : Netip) (resolve : Text → Option (List Text)) (now : Time)
        (r : Result ApiError (List ApiNode)) (s : Syncer)
        → Holds s
        → Holds (sync_decoded db conn ip resolve now r s).1
    unfolding sync_decoded refresh_infra
    decoded_logged ip resolve now (err e) s h = h
    decoded_logged ip resolve now (ok nodes) s h =
        store_nodes_logged ip resolve now nodes _ (one (dict_size "infra_ips" _) _ tt h)
