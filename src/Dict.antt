-- ===== src/Dict.antt =====
-- internal/dict/dict.go and hwid.go: the refresh of the dimension tables. The panel, ClickHouse and
-- the clock are parameters: a request is a function of its number and of what it asks for.
pub mod Devices
pub mod Paging
pub mod Refresh
mod Types
pub mod Hwid
pub mod Nodes
pub mod Torrent
pub mod Version
pub use Types.*
use remnanode_exporter.Infra
use remnanode_exporter.Prelude.{
  ℕ, zero, suc, ◌+◌, String, Bool, true, false, ◌||◌, Option, none, some, List, [], ◌∷◌, ◌++◌, map,
  str_eq, ltb, ◌==◌, if◌then◌else◌, Text, codes, text_eq, length, Result, ok, err, pos,
}
use remnanode_exporter.Model.{Time}
use remnanode_exporter.Events.{Row, Event, dict_size, dict_errors}
use remnanode_exporter.Sink.{InsertError, Conn, insert}
use remnanode_exporter.Panel.{Env, StreamUser, user_row, user_columns}

abbrev pub table_users : String
table_users = "dim_users"

abbrev pub table_nodes : String
table_nodes = "dim_nodes"

abbrev pub table_hwid_devices : String
table_hwid_devices = "dim_hwid_devices"

abbrev pub table_torrent_reports : String
table_torrent_reports = "torrent_reports"

-- New
unfoldable pub new : Syncer
new = record {
  infra = Infra.empty;
  torrent_since = pos 0;
  torrent_resume = false;
  torrent_stored = [];
  unavailable = [];
  log = [];
}

unfoldable pub emit : List Event → Syncer → Syncer
emit events s = record s { log = s.log ++ events }

-- the headers that getJSON sets
unfoldable pub request_headers : String → Text → List (String × Text)
request_headers scheme token =
    ("Authorization", codes "Bearer " ++ token)
    ∷ ("Accept", codes "application/json")
    ∷ (if str_eq scheme "http"
        then ("X-Forwarded-For", codes "127.0.0.1") ∷ ("X-Forwarded-Proto", codes "https") ∷ []
        else [])

-- getJSON, behind the request
unfoldable pub decoded {ℓ} : {A : Type ℓ} → Option A → Result ApiError A
decoded none = err other_error
decoded (some a) = ok a

unfoldable pub get_json {ℓ} : {A : Type ℓ} → HttpAnswer A → Result ApiError A
unfolding decoded
get_json transport_error = err other_error
get_json (response code body) = if code == 200 then decoded body else err (status_error code)

unfoldable pub has_source : String → List String → Bool
has_source source [] = false
has_source source (s ∷ ss) = if str_eq s source then true else has_source source ss

-- the codes that only mean that an optional source is out of reach
unfoldable pub is_out_of_reach : ℕ → Bool
is_out_of_reach code = (code == 401 || code == 403) || (code == 404 || code == 405)

-- optionalUnavailable
unfoldable pub optional_unavailable : String → SyncError → Syncer → Bool × Syncer
unfolding is_out_of_reach has_source
optional_unavailable source (api (status_error code)) s =
    if is_out_of_reach code
    then (
      true,
      if has_source source s.unavailable
          then s
          else record s { unavailable = s.unavailable ++ source ∷ [] },
    )
    else (false, s)
optional_unavailable source _ s = (false, s)

-- usersStreamResponse
pub record UsersResponse : Type 0 where
  pub users : List StreamUser
  pub next_cursor : Option Text
  pub has_more : Bool

unfoldable pub next_of : Bool → Option Text → Text
next_of false cursor = []
next_of true none = []
next_of true (some cursor) = cursor

-- the answer to request `page` for a path
abbrev pub UsersPanel : Type 0
UsersPanel = ℕ → Text → HttpAnswer UsersResponse

-- the path of a request, with the cursor as it came
unfoldable pub users_path : Text → Text
users_path cursor =
    if text_eq cursor []
    then codes "/api/users/stream?size=1000"
    else codes "/api/users/stream?size=1000" ++ (codes "&cursor=" ++ cursor)

unfoldable pub users_page : Result ApiError UsersResponse → Result ApiError (List StreamUser × Text)
unfolding next_of
users_page (err e) = err e
users_page (ok r) = ok (r.users, next_of r.has_more r.next_cursor)

-- fetchUsersPage
unfoldable pub fetch_users_page : UsersPanel → ℕ → Text → Result ApiError (List StreamUser × Text)
unfolding users_page
fetch_users_page panel page cursor = users_page (get_json (panel page (users_path cursor)))

module _ (env : Env) (panel : UsersPanel) (now : Time) where
  -- the loop of syncUsers over `page`, `cursor` and `rows`
  unfoldable pub users_loop : ℕ → ℕ → Text → List Row → Result SyncError (List Row)
  users_loop zero page cursor rows = err out_of_fuel
  users_loop (suc fuel) page cursor rows = elim (fetch_users_page panel page cursor) [
    | err e ↦ err (api e)
    | ok (users, next) ↦
        let rows' = rows ++ map (λ u. user_row env u now) users in
        let rest = users_loop fuel (page + 1) next rows' in
        if text_eq next [] then ok rows' else if ltb 10000 page then err not_terminated else rest
  ]

-- page runs from 0 to 10001 at most
abbrev pub users_fuel : ℕ
users_fuel = 10002

unfoldable pub or_insert_error : Result InsertError (Unit {0}) → Result SyncError (Unit {0})
or_insert_error (ok u) = ok tt
or_insert_error (err e) = err (insert_failed e)

-- the gauge that a refresh sets behind its insert
unfoldable pub sized :
    String
    → ℕ
    → Result InsertError (Unit {0}) × List Event
    → Syncer
    → Result SyncError (Unit {0}) × Syncer
unfolding emit
sized table n (ok u, events) s = (ok tt, emit (events ++ dict_size table n ∷ []) s)
sized table n (err e, events) s = (err (insert_failed e), emit events s)

module _ (db : String) (conn : Conn) where
  -- the end of syncUsers and of syncHwidDevices: nothing for no rows, one insert otherwise
  unfoldable pub store_rows :
      String → List String → List Row → Syncer → Result SyncError (Unit {0}) × Syncer
  unfolding sized
  store_rows table cols rows s =
      if length rows == 0
      then (ok tt, s)
      else sized table (length rows) (insert db conn table cols rows) s

  unfoldable pub store_result :
      String
      → List String
      → Result SyncError (List Row)
      → Syncer
      → Result SyncError (Unit {0}) × Syncer
  unfolding store_rows
  store_result table cols (err e) s = (err e, s)
  store_result table cols (ok rows) s = store_rows table cols rows s

  -- syncUsers
  unfoldable pub sync_users :
      Env → UsersPanel → Time → Syncer → Result SyncError (Unit {0}) × Syncer
  unfolding store_result
  sync_users env panel now s =
      store_result table_users user_columns (users_loop env panel now users_fuel 0 [] []) s
