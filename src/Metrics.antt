-- ===== src/Metrics.antt =====
-- internal/metrics/metrics.go: the metrics, and what they show of a log. The client library is a
-- parameter as far as its default buckets go; of a histogram only the count is kept.
pub mod Rows
pub mod Reads
use remnanode_exporter.Events.{
  Event, committed, aborted, unconfirmed, group_created, acked, messages_read, messages_failed,
  rows_inserted, flush_errors, flush_duration, stream_lag, dict_size, dict_errors,
}
use remnanode_exporter.Prelude.{
  ℕ, ◌+◌, String, ◌≡◌, ◌&&◌, Option, none, some, List, [], ◌∷◌, ◌++◌, arith, str_eq, if◌then◌else◌,
}

-- prometheus.CounterOpts, GaugeOpts and HistogramOpts, with the labels
pub record Opts : Type 0 where
  pub name : String
  pub help : String
  pub labels : List String

-- what promauto makes of them; a histogram has its buckets
pub data Vec (B : Type 0) : Type 0 where
  counter_vec gauge_vec : Opts → Vec B
  histogram_vec : Opts → B → Vec B

abbrev pub messages_read_opts : Opts
messages_read_opts = record {
  name = "remnanode_exporter_messages_read_total";
  help = "Stream entries read from Redis, by stream.";
  labels = "stream" ∷ [];
}

abbrev pub messages_failed_opts : Opts
messages_failed_opts = record {
  name = "remnanode_exporter_messages_failed_total";
  help = "Stream entries that failed to decode, by stream.";
  labels = "stream" ∷ [];
}

abbrev pub rows_inserted_opts : Opts
rows_inserted_opts = record {
  name = "remnanode_exporter_rows_inserted_total";
  help = "Rows successfully inserted into ClickHouse, by table.";
  labels = "table" ∷ [];
}

abbrev pub flush_errors_opts : Opts
flush_errors_opts = record {
  name = "remnanode_exporter_flush_errors_total";
  help = "Failed ClickHouse batch inserts, by table.";
  labels = "table" ∷ [];
}

abbrev pub flush_duration_opts : Opts
flush_duration_opts = record {
  name = "remnanode_exporter_flush_duration_seconds";
  help = "ClickHouse batch insert latency, by table.";
  labels = "table" ∷ [];
}

abbrev pub stream_lag_opts : Opts
stream_lag_opts = record {
  name = "remnanode_exporter_stream_pending";
  help = "Entries delivered to the consumer group but not yet acknowledged.";
  labels = "stream" ∷ [];
}

abbrev pub dict_size_opts : Opts
dict_size_opts = record {
  name = "remnanode_exporter_dict_size";
  help = "Number of entries in a resolved dictionary.";
  labels = "dict" ∷ [];
}

abbrev pub dict_errors_opts : Opts
dict_errors_opts = record {
  name = "remnanode_exporter_dict_refresh_errors_total";
  help = "Dictionary refresh failures, by dictionary.";
  labels = "dict" ∷ [];
}

-- the metrics in the order in which the package makes them
abbrev pub metrics : {B : Type 0} → B → List (Vec B)
metrics def_buckets =
    counter_vec messages_read_opts
    ∷ counter_vec messages_failed_opts
    ∷ counter_vec rows_inserted_opts
    ∷ counter_vec flush_errors_opts
    ∷ histogram_vec flush_duration_opts def_buckets
    ∷ gauge_vec stream_lag_opts
    ∷ gauge_vec dict_size_opts
    ∷ counter_vec dict_errors_opts
    ∷ []

-- A call on the child of a metric with one label value: Inc, Add, Set and Observe.
pub data Call : Type 0 where
  inc observe : Call
  add set : ℕ → Call

pub record Update : Type 0 where
  pub metric : Opts
  pub label : String
  pub call : Call

abbrev on : Opts → String → Call → Option Update
on metric label call = some (record { metric = metric; label = label; call = call })

-- the call that an event of the log is
abbrev pub update : Event → Option Update
update (messages_read stream) = on messages_read_opts stream inc
update (messages_failed stream) = on messages_failed_opts stream inc
update (rows_inserted table n) = on rows_inserted_opts table (add n)
update (flush_errors table) = on flush_errors_opts table inc
update (flush_duration table) = on flush_duration_opts table observe
update (stream_lag stream n) = on stream_lag_opts stream (set n)
update (dict_size dict n) = on dict_size_opts dict (set n)
update (dict_errors dict) = on dict_errors_opts dict inc
update (committed db table cols rows) = none
update (unconfirmed db table cols rows) = none
update (aborted table) = none
update (group_created stream group start) = none
update (acked stream group ids) = none

-- what a call adds to a counter
abbrev pub amount : Call → ℕ
amount inc = 1
amount (add n) = n
amount observe = 0
amount (set n) = 0

abbrev pub gain : Opts → String → Option Update → ℕ
gain metric label none = 0
gain metric label (some u) =
    if str_eq u.metric.name metric.name && str_eq u.label label then amount u.call else 0

-- the value of a counter with that label value, after the events of a log
abbrev pub counter : Opts → String → List Event → ℕ
counter metric label [] = 0
counter metric label (e ∷ log) = gain metric label (update e) + counter metric label log

pub counter-append :
    (metric : Opts) (label : String) (xs ys : List Event)
    → counter metric label (xs ++ ys) ≡ counter metric label xs + counter metric label ys
counter-append metric label [] ys = omega arith
counter-append metric label (e ∷ xs) ys = omega (arith, counter-append metric label xs ys)
