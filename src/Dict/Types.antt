-- ===== src/Dict/Types.antt =====
-- internal/dict/dict.go: the state of the Syncer, and how a call of the panel API can fail.
use remnanode_exporter.Prelude.{ℕ, String, Bool, Option, List, Text, ℤ}
use remnanode_exporter.Model.{Time}
use remnanode_exporter.Events.{Event}
use remnanode_exporter.Infra.{IpSet}
use remnanode_exporter.Sink.{InsertError}

-- A statusError with its code, or any other error of getJSON.
pub data ApiError : Type 0 where
  status_error : ℕ → ApiError
  other_error : ApiError

pub data SyncError : Type 0 where
  api : ApiError → SyncError
  insert_failed : InsertError → SyncError
  not_terminated : SyncError
  no_numeric_ids : ℕ → SyncError
  -- a loop of the model that its fuel stopped
  out_of_fuel : SyncError

-- torrentKey
pub record TorrentKey : Type 0 where
  pub id : ℤ
  pub created_at : Text

pub record Syncer : Type 0 where
  pub infra : IpSet
  pub torrent_since : Time
  pub torrent_resume : Bool
  pub torrent_stored : List (TorrentKey × Time)
  pub unavailable : List String
  pub log : List Event

-- what http.Client.Do and the JSON decoder give for one request
pub data HttpAnswer {ℓ} (A : Type ℓ) : Type ℓ where
  transport_error : HttpAnswer A
  response : ℕ → Option A → HttpAnswer A
