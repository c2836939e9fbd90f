-- ===== src/Dict/Torrent/Stored.antt =====
-- What one poll stores, on each of its branches.
use remnanode_exporter.Sink.Outcome.{Stores, insert-Stores}
use remnanode_exporter.Events.{dict_errors, Event, stored, Row}
use remnanode_exporter.Prelude.{
  String, ◌≡◌, refl, sym, inl, inr, Bool, true, false, Option, none, some, List, [], ◌∷◌, ◌++◌,
  append-nil, map, ◌==◌, if◌then◌else◌, Bool-cases, Text, length, All, Result, ok, err,
  concat_map-append,
}
use remnanode_exporter.Panel.Devices.{torrent_columns, torrent_row, TorrentReport}
use remnanode_exporter.Panel.{Env}
use remnanode_exporter.Geoip.{Info}
use remnanode_exporter.Sink.{Conn, InsertError}
use remnanode_exporter.Dict.{
  other_error, status_error, has_source, is_out_of_reach, status_error, api, optional_unavailable,
  table_torrent_reports, ApiError, emit, Syncer,
}
use remnanode_exporter.Model.{Time}
use remnanode_exporter.Dict.Torrent.{
  latest_report, resume, poll_from, mark_stored, poll_failed, poll_fetched, insert_reports,
  store_reports, ReportsPanel,
}
use remnanode_exporter.Dict.Torrent.Young.{fetch-IsYoung, fetch-IsServed, AllOf, IsServed, IsYoung}
use remnanode_exporter.Dict.Torrent.Fresh.{
  unseen-IsFresh, unseen-All, mark_stored-Remembers, Remembers, IsFresh,
}

-- what one poll finds: credentials, the newest report of the table, the panel and ClickHouse
pub record Poll : Type 0 where
  pub credentials : Bool
  pub latest : Option Time
  pub panel : ReportsPanel
  pub conn : Conn

module _ (db : String) (env : Env) (geo : Option (Text → Info)) where
  abbrev pub row_of : TorrentReport → Row
  row_of r = torrent_row env r geo

  -- one poll that stores `batch`: every report of it was served, is fresh, and is remembered behind it
  pub record IsPolled (panel : ReportsPanel) (written : List TorrentReport) (s t : Syncer)
      : Type 0 where
    pub batch : List TorrentReport
    pub served : All (IsServed panel) batch
    pub fresh : All (IsFresh env written) batch
    pub remembers : Remembers env (written ++ batch) t
    pub rows_stored :
        stored table_torrent_reports t.log ≡ stored table_torrent_reports s.log ++ map row_of batch

  -- a poll that stores nothing
  pub idle-IsPolled :
      (panel : ReportsPanel) (written : List TorrentReport) (s t : Syncer)
      → Remembers env written t
      → stored table_torrent_reports t.log ≡ stored table_torrent_reports s.log
      → IsPolled panel written s t
  idle-IsPolled panel written s t h e = record {
    batch = [];
    served = tt;
    fresh = tt;
    remembers = rw (append-nil written) h;
    rows_stored = rw e (sym (append-nil _));
  }

  emit-Remembers :
      (written : List TorrentReport) (events : List Event) (s : Syncer)
      → Remembers env written s
      → Remembers env written (emit events s)
  unfolding emit
  emit-Remembers written events s h = record { timed = h.timed; kept = h.kept; started = h.started }

  error-IsPolled :
      (panel : ReportsPanel) (written : List TorrentReport) (s : Syncer)
      → Remembers env written s
      → IsPolled panel written s (emit (dict_errors table_torrent_reports ∷ []) s)
  error-IsPolled panel written s h =
      idle-IsPolled panel written s _ (emit-Remembers written _ s h)
        (unfold emit in simp (concat_map-append, append-nil))

  store-IsPolled :
      (panel : ReportsPanel) (conn : Conn) (written rs : List TorrentReport) (s : Syncer)
      (r : Result InsertError (Unit {0})) (events : List Event)
      → s.torrent_resume ≡ true
      → Remembers env written s
      → All (IsServed panel) rs
      → All (IsFresh env written) rs
      → Stores db conn table_torrent_reports torrent_columns (map row_of rs) r events
      → IsPolled panel written s (store_reports db conn env geo rs (r, events) s)
  unfolding store_reports
  store-IsPolled panel conn written rs s (ok u) events z h v f st = record {
    batch = rs;
    served = v;
    fresh = f;
    remembers =
        mark_stored-Remembers env written rs (emit events s) (unfold emit in z)
          (emit-Remembers written events s h);
    rows_stored = unfold mark_stored emit in simp (concat_map-append, st);
  }
  store-IsPolled panel conn written rs s (err e) events z h v f st =
      idle-IsPolled panel written s _ (emit-Remembers written _ s h)
        (unfold emit in simp (concat_map-append, append-nil, st))

  insert-IsPolled :
      (panel : ReportsPanel) (conn : Conn) (written rs : List TorrentReport) (s : Syncer)
      → s.torrent_resume ≡ true
      → Remembers env written s
      → All (IsServed panel) rs
      → All (IsFresh env written) rs
      → IsPolled panel written s (insert_reports db conn env geo rs s)
  unfolding insert_reports
  insert-IsPolled panel conn written rs s z h v f = elim (Bool-cases (length rs == 0)) [
    | inl e ↦ rw e (idle-IsPolled panel written s s h refl)
    | inr e ↦ rw e (
        store-IsPolled panel conn written rs s _ _ z h v f
          (insert-Stores db conn table_torrent_reports torrent_columns (map row_of rs)))
  ]

  -- what optionalUnavailable changes is `unavailable` alone
  abbrev LeavesRows : List TorrentReport → Syncer → Syncer → Type 0
  LeavesRows written s t =
      Remembers env written t
      × (stored table_torrent_reports t.log ≡ stored table_torrent_reports s.log)

  unavailable-LeavesRows :
      (written : List TorrentReport) (source : String) (e : ApiError) (s : Syncer)
      → Remembers env written s
      → LeavesRows written s (optional_unavailable source (api e) s).1
  unfolding optional_unavailable
  unavailable-LeavesRows written source other_error s h = (h, refl)
  unavailable-LeavesRows written source (status_error code) s h =
      elim (Bool-cases (is_out_of_reach code)) [
        | inr e ↦ rw e (h, refl)
        | inl e ↦ elim (Bool-cases (has_source source s.unavailable)) [
          | inl known ↦ rw (e, known) (h, refl)
          | inr unknown ↦
              rw (e, unknown) (record { timed = h.timed; kept = h.kept; started = h.started }, refl)
        ]
      ]

  failed-IsPolled :
      (panel : ReportsPanel) (conn : Conn) (written : List TorrentReport) (s : Syncer) (b : Bool)
      (t : Syncer)
      → LeavesRows written s t
      → IsPolled panel written s (poll_failed db conn env geo (b, t))
  unfolding poll_failed
  failed-IsPolled panel conn written s true t (h, e) = idle-IsPolled panel written s t h e
  failed-IsPolled panel conn written s false t (h, e) =
      idle-IsPolled panel written s _ (emit-Remembers written _ t h)
        (unfold emit in simp (concat_map-append, append-nil, e))

  fetched-IsPolled :
      (panel : ReportsPanel) (conn : Conn) (written : List TorrentReport)
      (r : Result ApiError (List TorrentReport)) (s : Syncer)
      → s.torrent_resume ≡ true
      → Remembers env written s
      → AllOf env (IsServed panel) r
      → AllOf env (IsYoung env s.torrent_since) r
      → IsPolled panel written s (poll_fetched db conn env geo r s)
  unfolding poll_fetched
  fetched-IsPolled panel conn written (err e) s z h v a =
      failed-IsPolled panel conn written s _ _
        (unavailable-LeavesRows written "torrent reports" e s h)
  fetched-IsPolled panel conn written (ok rs) s z h v a =
      insert-IsPolled panel conn written _ s z h
        (unseen-All env (IsServed panel) s.torrent_stored rs v)
        (unseen-IsFresh env s written rs h a)

  -- what the poll stores does not depend on how the state before it had its cursor set
  resume-IsPolled :
      (panel : ReportsPanel) (written : List TorrentReport) (since : Time) (s t : Syncer)
      → IsPolled panel written (record s { torrent_since = since; torrent_resume = true }) t
      → IsPolled panel written s t
  resume-IsPolled panel written since s t h = record {
    batch = h.batch;
    served = h.served;
    fresh = h.fresh;
    remembers = h.remembers;
    rows_stored = h.rows_stored;
  }

  first-Remembers :
      (since : Time) (s : Syncer) (written : List TorrentReport)
      → s.torrent_resume ≡ false
      → Remembers env written s
      → Remembers env written (record s { torrent_since = since; torrent_resume = true })
  first-Remembers since s [] z h = record { timed = h.timed; kept = tt; started = inl refl }
  first-Remembers since s (w ∷ ws) z h = elim h.started [ inl e ↦ cc | inr e ↦ cc ]

  first-IsPolled :
      (p : Poll) (latest : Option Time) (written : List TorrentReport) (s : Syncer)
      → s.torrent_resume ≡ false
      → Remembers env written s
      → IsPolled p.panel written s
          (poll_from db p.conn env geo p.panel (resume db p.conn env geo latest s) s)
  unfolding poll_from resume
  first-IsPolled p none written s z h = error-IsPolled p.panel written s h
  first-IsPolled p (some since) written s z h = resume-IsPolled p.panel written since s _ (
      fetched-IsPolled p.panel p.conn written _
        (record s { torrent_since = since; torrent_resume = true }) refl
        (first-Remembers since s written z h) (fetch-IsServed env p.panel since)
        (fetch-IsYoung env p.panel since))

  pub cursor-IsPolled :
      (p : Poll) (b : Bool) (written : List TorrentReport) (s : Syncer)
      → s.torrent_resume ≡ b
      → Remembers env written s
      → IsPolled p.panel written s (
          poll_from db p.conn env geo p.panel
            (if b then some s else resume db p.conn env geo (latest_report p.latest) s)
            s)
  cursor-IsPolled p false written s z h = first-IsPolled p (latest_report p.latest) written s z h
  cursor-IsPolled p true written s z h =
      unfold poll_from in
      fetched-IsPolled p.panel p.conn written _ s z h (fetch-IsServed env p.panel s.torrent_since)
        (fetch-IsYoung env p.panel s.torrent_since)
