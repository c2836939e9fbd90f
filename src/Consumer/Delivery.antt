-- ===== src/Consumer/Delivery.antt =====
-- At-least-once delivery: what an acknowledgement means.
pub mod Steps
pub mod Runs
pub mod Carries
pub mod Restart
pub mod Progress
pub mod Crash
pub mod Stored
use remnanode_exporter.Model.{ParseError}
use remnanode_exporter.Events.{Event, Row, stored_by, acks, stored}
use remnanode_exporter.Prelude.{
  String, ◌≡◌, refl, ◌∙◌, List, [], ◌∷◌, ◌++◌, append_assoc, map, concat_map, All, Result, ok, err,
  concat_map-append,
}
use remnanode_exporter.Consumer.{State, Decoder, Message}

module _ (dec : Decoder) where
  unfoldable pub row_or_none : Result ParseError (List Row) → List Row
  row_or_none (ok rows) = rows
  row_or_none (err e) = []

  -- the rows that an entry stands for, none if it cannot be decoded
  unfoldable pub rows_of : Message → List Row
  unfolding row_or_none
  rows_of msg = row_or_none (dec.decode msg.values)

  -- The rows stand together, in order, in what the log stored in the decoder's table.
  pub record IsStored (log : List Event) (msg : Message) : Type 0 where
    pub before : List Row
    pub after : List Row
    pub split : stored dec.table log ≡ before ++ rows_of msg ++ after

  module _ (P : Message → Type 0) where
    -- The acknowledged id is that of an entry with `P` whose rows are stored.
    pub record IsAccounted (log : List Event) (id : String) : Type 0 where
      pub msg : Message
      pub holds : P msg
      pub same : msg.id ≡ id
      pub rows_stored : IsStored log msg

    -- The buffer is that of some entries, and nothing else was acknowledged unstored.
    pub record IsSound (s : State) : Type 0 where
      pub held : List Message
      pub held_hold : All P held
      pub pending_held : s.pending ≡ map (λ (m : Message). m.id) held
      pub rows_held : s.rows ≡ concat_map rows_of held
      pub accounted : All (IsAccounted s.log) (acks s.log)

  -- a longer log stores what a shorter one does
  pub IsStored-append :
      (log events : List Event) (msg : Message) → IsStored log msg → IsStored (log ++ events) msg
  IsStored-append log events msg h = record {
    before = h.before;
    after = h.after ++ stored dec.table events;
    split = rw (concat_map-append (stored_by dec.table) log events, h.split) (simp append_assoc);
  }

  module _ (P : Message → Type 0) where
    pub IsAccounted-append :
        (log events : List Event) (ids : List String)
        → All (IsAccounted P log) ids
        → All (IsAccounted P (log ++ events)) ids
    IsAccounted-append log events [] h = tt
    IsAccounted-append log events (id ∷ ids) (h, hs) = (
      record {
        msg = h.msg;
        holds = h.holds;
        same = h.same;
        rows_stored = IsStored-append log events h.msg h.rows_stored;
      },
      IsAccounted-append log events ids hs,
    )

    -- every entry of a list is accounted for once the rows of the list are stored
    pub held-IsAccounted :
        (log : List Event) (before after : List Row) (held : List Message)
        → All P held
        → stored dec.table log ≡ before ++ concat_map rows_of held ++ after
        → All (IsAccounted P log) (map (λ (m : Message). m.id) held)
    held-IsAccounted log before after [] h e = tt
    held-IsAccounted log before after (m ∷ ms) (hm, h) e = (
      record {
        msg = m;
        holds = hm;
        same = refl;
        rows_stored = record {
          before = before;
          after = concat_map rows_of ms ++ after;
          split = e ∙ simp append_assoc;
        };
      },
      held-IsAccounted log (before ++ rows_of m) after ms h (e ∙ simp append_assoc),
    )
