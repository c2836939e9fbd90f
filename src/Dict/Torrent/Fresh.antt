-- ===== src/Dict/Torrent/Fresh.antt =====
-- What a process remembers, and that a batch holds no report of an earlier one.
use remnanode_exporter.Panel.Devices.{TorrentReport}
use remnanode_exporter.Prelude.{
  ◌≡◌, refl, sym, ap, ◌∙◌, ◌≢◌, ◌⊎◌, inl, inr, true, false, List, [], ◌∷◌, ◌++◌, arith, ltb→lt,
  lt→ltb, ==_iff, Bool-cases, All, All-append, pos, negsuc, ◌-ℤ◌, ◌≤ℤ◌, ltb_ℤ, -ℤ_parts,
}
use remnanode_exporter.Model.{Time}
use remnanode_exporter.Panel.{Env, parse_time}
use remnanode_exporter.Dict.{TorrentKey, Syncer}
use remnanode_exporter.Dict.Torrent.{
  mark_loop, torrent_overlap, key_of, is_stored, unseen, mark_stored, is_zero,
}
use remnanode_exporter.Dict.Torrent.Young.{IsYoung}
use remnanode_exporter.Dict.Torrent.Memory.{
  mark_loop-IsTimed, mark_loop-stores, forget-IsTimed, forget-keeps, mark_loop-since,
  mark_loop-keeps, IsTimed,
}

module _ (env : Env) where
  true_ne_false : true ≢ false
  true_ne_false e = cc

  abbrev time_of : TorrentReport → Time
  time_of r = parse_time env r.created_at

  -- The report is remembered, or older than the overlap behind the cursor.
  abbrev pub IsKept : Syncer → TorrentReport → Type 0
  IsKept s w =
      (is_stored (key_of w) s.torrent_stored ≡ true)
      ⊎ (ltb_ℤ (parse_time env w.created_at) (s.torrent_since -ℤ torrent_overlap) ≡ true)

  -- `written` is what the process has stored so far, nothing before the cursor is read back.
  pub record Remembers (written : List TorrentReport) (s : Syncer) : Type 0 where
    pub timed : IsTimed env s.torrent_stored
    pub kept : All (IsKept s) written
    pub started : (s.torrent_resume ≡ true) ⊎ (written ≡ [])

  older :
      (t since since' : Time)
      → since ≤ℤ since'
      → ltb_ℤ t (since -ℤ torrent_overlap) ≡ true
      → ltb_ℤ t (since' -ℤ torrent_overlap) ≡ true
  older t since since' h e =
      lt→ltb _ _ (
        omega
          (arith, -ℤ_parts since torrent_overlap, -ℤ_parts since' torrent_overlap, ltb→lt _ _ e))

  -- what is stored behind the first loop is remembered or older than the new cutoff
  stored-IsKept :
      (rs : List TorrentReport) (s : Syncer) (w : TorrentReport)
      → IsTimed env s.torrent_stored
      → is_stored (key_of w) (mark_loop env rs s.torrent_since s.torrent_stored).1 ≡ true
      → IsKept (mark_stored env rs s) w
  unfolding mark_stored key_of
  stored-IsKept rs s w timed h =
      let cutoff = (mark_loop env rs s.torrent_since s.torrent_stored).0 -ℤ torrent_overlap in
      elim (Bool-cases (ltb_ℤ (time_of w) cutoff)) [
        | inl old ↦ inr old
        | inr young ↦ inl (
            forget-keeps env (key_of w) cutoff _
              (mark_loop-IsTimed env rs s.torrent_since s.torrent_stored timed) h young)
      ]

  mark_old-IsKept :
      (rs : List TorrentReport) (s : Syncer) (w : TorrentReport)
      → IsTimed env s.torrent_stored
      → IsKept s w
      → IsKept (mark_stored env rs s) w
  mark_old-IsKept rs s w timed (inl h) =
      stored-IsKept rs s w timed
        (mark_loop-keeps env (key_of w) rs s.torrent_since s.torrent_stored h)
  mark_old-IsKept rs s w timed (inr h) =
      unfold mark_stored in
      inr (
        older (time_of w) s.torrent_since _
          (mark_loop-since env rs s.torrent_since s.torrent_stored) h)

  stored-All :
      (rs ws : List TorrentReport) (s : Syncer)
      → IsTimed env s.torrent_stored
      → All
          (λ w. is_stored (key_of w) (mark_loop env rs s.torrent_since s.torrent_stored).1 ≡ true)
          ws
      → All (IsKept (mark_stored env rs s)) ws
  stored-All rs [] s timed h = tt
  stored-All rs (w ∷ ws) s timed (h, hs) =
      (stored-IsKept rs s w timed h, stored-All rs ws s timed hs)

  mark_old-All :
      (rs ws : List TorrentReport) (s : Syncer)
      → IsTimed env s.torrent_stored
      → All (IsKept s) ws
      → All (IsKept (mark_stored env rs s)) ws
  mark_old-All rs [] s timed h = tt
  mark_old-All rs (w ∷ ws) s timed (h, hs) =
      (mark_old-IsKept rs s w timed h, mark_old-All rs ws s timed hs)

  mark_stored-IsTimed :
      (rs : List TorrentReport) (s : Syncer)
      → IsTimed env s.torrent_stored
      → IsTimed env (mark_stored env rs s).torrent_stored
  unfolding mark_stored
  mark_stored-IsTimed rs s h =
      forget-IsTimed env _ _ (mark_loop-IsTimed env rs s.torrent_since s.torrent_stored h)

  pub mark_stored-Remembers :
      (written rs : List TorrentReport) (s : Syncer)
      → s.torrent_resume ≡ true
      → Remembers written s
      → Remembers (written ++ rs) (mark_stored env rs s)
  mark_stored-Remembers written rs s resumed h = record {
    started = unfold mark_stored in inl resumed;
    timed = mark_stored-IsTimed rs s h.timed;
    kept =
        All-append (IsKept (mark_stored env rs s)) written rs
          (mark_old-All rs written s h.timed h.kept)
          (stored-All rs rs s h.timed (mark_loop-stores env rs s.torrent_since s.torrent_stored));
  }

  abbrev pub IsSame : TorrentReport → TorrentReport → Type 0
  IsSame w r = (w.id ≡ r.id) × (w.created_at ≡ r.created_at)

  -- No report with this id and this time text was written before, unless the time lies before Go's
  -- zero time.
  abbrev pub IsFresh : List TorrentReport → TorrentReport → Type 0
  IsFresh written r =
      (ltb_ℤ (parse_time env r.created_at) (pos 0) ≡ true) ⊎ All (λ w. ¬ IsSame w r) written

  IsSame-key_of : (w r : TorrentReport) → IsSame w r → key_of w ≡ key_of r
  unfolding key_of
  IsSame-key_of w r (a, b) = rw (a, b) refl

  same_time : (r w : TorrentReport) → key_of w ≡ key_of r → time_of w ≡ time_of r
  unfolding key_of
  same_time r w e = ap (λ (k : TorrentKey). parse_time env k.created_at) e

  same_time_late :
      (since u : Time)
      → is_zero since ≡ true
      → ltb_ℤ u (pos 0) ≡ false
      → ltb_ℤ u (since -ℤ torrent_overlap) ≡ true
      → ⊥
  same_time_late (pos n) u z late old =
      ground (arith, ltb→lt _ _ old, -ℤ_parts (pos n) torrent_overlap, (==_iff n 0).0 z)
  same_time_late (negsuc n) u z late old = cc

  ne_key :
      (s : Syncer) (r w : TorrentReport)
      → IsYoung env s.torrent_since r
      → is_stored (key_of r) s.torrent_stored ≡ false
      → ltb_ℤ (time_of r) (pos 0) ≡ false
      → IsKept s w
      → key_of w ≢ key_of r
  ne_key s r w young unstored late (inl h) e =
      true_ne_false (sym h ∙ ap (λ k. is_stored k s.torrent_stored) e ∙ unstored)
  ne_key s r w (inl zero_since) unstored late (inr h) e =
      same_time_late s.torrent_since (time_of r) zero_since late (rw (same_time r w e) at h)
  ne_key s r w (inr young) unstored late (inr h) e =
      true_ne_false
        (sym h ∙ ap (λ t. ltb_ℤ t (s.torrent_since -ℤ torrent_overlap)) (same_time r w e) ∙ young)

  ne_keys :
      (s : Syncer) (r : TorrentReport) (ws : List TorrentReport)
      → IsYoung env s.torrent_since r
      → is_stored (key_of r) s.torrent_stored ≡ false
      → ltb_ℤ (time_of r) (pos 0) ≡ false
      → All (IsKept s) ws
      → All (λ w. ¬ IsSame w r) ws
  ne_keys s r [] young unstored late h = tt
  ne_keys s r (w ∷ ws) young unstored late (h, hs) = (
    λ same. ne_key s r w young unstored late h (IsSame-key_of w r same),
    ne_keys s r ws young unstored late hs,
  )

  pub unseen-All :
      (P : TorrentReport → Type 0) (m : List (TorrentKey × Time)) (rs : List TorrentReport)
      → All P rs
      → All P (unseen m rs)
  unfolding unseen
  unseen-All P m [] h = tt
  unseen-All P m (r ∷ rs) (h, hs) = elim (Bool-cases (is_stored (key_of r) m)) [
    | inl e ↦ rw e (unseen-All P m rs hs)
    | inr e ↦ rw e (h, unseen-All P m rs hs)
  ]

  pub unseen-IsFresh :
      (s : Syncer) (written rs : List TorrentReport)
      → Remembers written s
      → All (IsYoung env s.torrent_since) rs
      → All (IsFresh written) (unseen s.torrent_stored rs)
  unfolding unseen
  unseen-IsFresh s written [] h a = tt
  unseen-IsFresh s written (r ∷ rs) h (young, a) =
      elim (Bool-cases (is_stored (key_of r) s.torrent_stored)) [
        | inl seen ↦ rw seen (unseen-IsFresh s written rs h a)
        | inr unstored ↦ rw unstored (
          elim (Bool-cases (ltb_ℤ (time_of r) (pos 0))) [
            | inl early ↦ inl early
            | inr late ↦ inr (ne_keys s r written young unstored late h.kept)
          ],
          unseen-IsFresh s written rs h a,
        )
      ]
