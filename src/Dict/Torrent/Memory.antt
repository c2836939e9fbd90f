-- ===== src/Dict/Torrent/Memory.antt =====
-- The reports that a process remembers behind its cursor.
use remnanode_exporter.Panel.Devices.{TorrentReport}
use remnanode_exporter.Prelude.{
  ◌≡◌, refl, sym, ap, ◌∙◌, ◌↔◌, inl, inr, true, false, List, [], ◌∷◌, arith, if◌then◌else◌,
  Bool-cases, text_eq_iff, All, ℤ, pos, negsuc, ◌≤ℤ◌, ltb_ℤ, subst,
}
use remnanode_exporter.Model.{Time}
use remnanode_exporter.Panel.{Env, parse_time}
use remnanode_exporter.Dict.{TorrentKey}
use remnanode_exporter.Dict.Torrent.{int_eq, key_eq, is_stored, put_key, forget, key_of, mark_loop}

pub int_eq_iff : (a b : ℤ) → (int_eq a b ≡ true) ↔ (a ≡ b)
unfolding int_eq
int_eq_iff (pos m) (pos n) = ground arith
int_eq_iff (pos m) (negsuc n) = ground arith
int_eq_iff (negsuc m) (pos n) = ground arith
int_eq_iff (negsuc m) (negsuc n) = ground arith

pub key_eq_iff : (a b : TorrentKey) → (key_eq a b ≡ true) ↔ (a ≡ b)
unfolding key_eq
key_eq_iff a b = ground (arith, int_eq_iff a.id b.id, text_eq_iff a.created_at b.created_at)

-- a key that was put is remembered, and so is every key before it
pub put_key_self :
    (k : TorrentKey) (t : Time) (m : List (TorrentKey × Time)) → is_stored k (put_key k t m) ≡ true
unfolding put_key is_stored
put_key_self k t [] = ground (arith, key_eq_iff k k)
put_key_self k t ((j, u) ∷ m) = ground (arith, put_key_self k t m)

pub put_key-keeps :
    (j k : TorrentKey) (t : Time) (m : List (TorrentKey × Time))
    → is_stored j m ≡ true
    → is_stored j (put_key k t m) ≡ true
unfolding put_key is_stored
put_key-keeps j k t [] h = cc
put_key-keeps j k t ((i, u) ∷ m) h = ground (arith, put_key-keeps j k t m)

le-later : (since t : Time) → since ≤ℤ (if ltb_ℤ since t then t else since)
le-later since t = ground arith

module _ (env : Env) where
  -- every entry has the time of its key
  abbrev pub IsTimed : List (TorrentKey × Time) → Type 0
  IsTimed m = All (λ (e : TorrentKey × Time). e.1 ≡ parse_time env e.0.created_at) m

  put_key-IsTimed :
      (k : TorrentKey) (m : List (TorrentKey × Time))
      → IsTimed m
      → IsTimed (put_key k (parse_time env k.created_at) m)
  unfolding put_key
  put_key-IsTimed k [] h = (refl, tt)
  put_key-IsTimed k ((j, u) ∷ m) (e, h) = ground (arith, key_eq_iff j k, put_key-IsTimed k m h)

  pub forget-IsTimed :
      (cutoff : Time) (m : List (TorrentKey × Time)) → IsTimed m → IsTimed (forget cutoff m)
  unfolding forget
  forget-IsTimed cutoff [] h = tt
  forget-IsTimed cutoff ((j, u) ∷ m) (e, h) = ground (arith, forget-IsTimed cutoff m h)

  -- what is not older than the cutoff is not forgotten
  pub forget-keeps :
      (k : TorrentKey) (cutoff : Time) (m : List (TorrentKey × Time))
      → IsTimed m
      → is_stored k m ≡ true
      → ltb_ℤ (parse_time env k.created_at) cutoff ≡ false
      → is_stored k (forget cutoff m) ≡ true
  unfolding forget is_stored
  forget-keeps k cutoff [] h s l = cc
  forget-keeps k cutoff ((j, u) ∷ m) (e, h) s l =
      let ih : is_stored k m ≡ true → is_stored k (forget cutoff m) ≡ true =
        λ s'. forget-keeps k cutoff m h s' l in
      elim (Bool-cases (key_eq j k)) [
        | inl same ↦
            let young : ltb_ℤ u cutoff ≡ false =
              subst (λ t. ltb_ℤ t cutoff ≡ false)
                (sym (
                  e
                  ∙ ap (λ (i : TorrentKey). parse_time env i.created_at) ((key_eq_iff j k).0 same)))
                l in
            rw young (rw same)
        | inr differ ↦ elim (Bool-cases (ltb_ℤ u cutoff)) [
          | inl old ↦ rw old (ih (rw differ at s))
          | inr young ↦ rw young (rw differ (ih (rw differ at s)))
        ]
      ]

  -- the first loop of markTorrentReportsStored, on what it remembers
  pub mark_loop-IsTimed :
      (rs : List TorrentReport) (since : Time) (m : List (TorrentKey × Time))
      → IsTimed m
      → IsTimed (mark_loop env rs since m).1
  unfolding mark_loop key_of
  mark_loop-IsTimed [] since m h = h
  mark_loop-IsTimed (r ∷ rs) since m h = mark_loop-IsTimed rs _ _ (put_key-IsTimed (key_of r) m h)

  pub mark_loop-keeps :
      (k : TorrentKey) (rs : List TorrentReport) (since : Time) (m : List (TorrentKey × Time))
      → is_stored k m ≡ true
      → is_stored k (mark_loop env rs since m).1 ≡ true
  unfolding mark_loop
  mark_loop-keeps k [] since m h = h
  mark_loop-keeps k (r ∷ rs) since m h = mark_loop-keeps k rs _ _ (put_key-keeps k (key_of r) _ m h)

  pub mark_loop-stores :
      (rs : List TorrentReport) (since : Time) (m : List (TorrentKey × Time))
      → All (λ r. is_stored (key_of r) (mark_loop env rs since m).1 ≡ true) rs
  unfolding mark_loop
  mark_loop-stores [] since m = tt
  mark_loop-stores (r ∷ rs) since m = (
    mark_loop-keeps (key_of r) rs _ _ (put_key_self (key_of r) (parse_time env r.created_at) m),
    mark_loop-stores rs _ _,
  )

  -- the cursor never goes back
  pub mark_loop-since :
      (rs : List TorrentReport) (since : Time) (m : List (TorrentKey × Time))
      → since ≤ℤ (mark_loop env rs since m).0
  unfolding mark_loop
  mark_loop-since [] since m = omega arith
  mark_loop-since (r ∷ rs) since m =
      let t = parse_time env r.created_at in
      let s' = if ltb_ℤ since t then t else since in
      omega (arith, le-later since t, mark_loop-since rs s' (put_key (key_of r) t m))
