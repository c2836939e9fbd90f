-- ===== src/Consumer/Entries.antt =====
-- The entries that the answers of Redis carry, and those that a run takes in.
use remnanode_exporter.Consumer.{
  Decoder, Options, Message, FlushEnv, Round, ReadAnswer, stop, work, timeout, failed, entries,
  first_stream,
}
use remnanode_exporter.Prelude.{String, Option, none, some, List, [], ◌∷◌, ◌++◌, concat_map}

-- the entries that an answer of Redis carries
abbrev pub read_entries : ReadAnswer → List Message
read_entries timeout = []
read_entries failed = []
read_entries (entries streams) = concat_map (λ (msgs : List Message). msgs) streams

abbrev pub claimed_entries : Option (Option (List Message)) → List Message
claimed_entries none = []
claimed_entries (some none) = []
claimed_entries (some (some msgs)) = msgs

abbrev pub round_entries : Round → List Message
round_entries (stop env) = []
round_entries (work claim answer env) = claimed_entries claim ++ read_entries answer

-- the entries of the rounds before the first that finds the worker stopped
abbrev pub taken_in : List Round → List Message
taken_in [] = []
taken_in (stop env ∷ rest) = []
taken_in (work claim answer env ∷ rest) =
    (claimed_entries claim ++ read_entries answer) ++ taken_in rest

module _ (db : String) (dec : Decoder) (opt : Options) where
  -- the entries of the answers to recoverOwnPending, of which it looks at the first stream
  abbrev pub pending_entries : List (ReadAnswer × FlushEnv) → List Message
  pending_entries recovery =
      concat_map (λ (r : ReadAnswer × FlushEnv). first_stream db dec opt r.0) recovery

  -- the entries that a run takes in, or leaves behind a failed flush of the recovery
  abbrev pub deliveries : List (ReadAnswer × FlushEnv) → List Round → List Message
  deliveries recovery rounds = pending_entries recovery ++ taken_in rounds
