-- ===== src/Dict/Devices/Complete.antt =====
-- What the refresh of the devices stores while the panel's list stays the same.
use remnanode_exporter.Events.{stored}
use remnanode_exporter.Model.{Time}
use remnanode_exporter.Sink.{Conn}
use remnanode_exporter.Dict.Paging.{store_result_complete}
use remnanode_exporter.Dict.Hwid.{
  DevicesPanel, DevicesResponse, devices_loop, fetch_devices, sync_devices, device_rows,
}
use remnanode_exporter.Dict.{Syncer, get_json, table_hwid_devices}
use remnanode_exporter.Panel.{Env}
use remnanode_exporter.Panel.Devices.{HwidDevice, hwid_row, hwid_columns}
use remnanode_exporter.Sink.Outcome.{Answers}
use Prim.Native.Nat.{min}
use remnanode_exporter.Prelude.{
  ℕ, zero, suc, ◌+◌, ◌-◌, ◌*◌, ◌≤◌, ◌<◌, String, ◌≡◌, refl, sym, ap, ◌∙◌, inl, inr, true, false,
  ◌||◌, List, [], ◌∷◌, ◌++◌, append_assoc, append-nil, map, arith, ltb, leb, ◌==◌, Bool-cases,
  length, take, drop, length-append, length-take, drop_all, take-append-drop, ok,
}

module _ {A : Type 0} where
  drop-append : (xs ys : List A) → drop (length xs) (xs ++ ys) ≡ ys
  drop-append [] ys = refl
  drop-append (x ∷ xs) ys = drop-append xs ys

  length-drop : (n : ℕ) (xs : List A) → length (drop n xs) ≡ length xs - n
  length-drop zero xs = omega arith
  length-drop (suc n) [] = omega arith
  length-drop (suc n) (x ∷ xs) = omega (arith, length-drop n xs)

-- the answer to a request for `size` devices from `start` on
abbrev pub page_of : List HwidDevice → ℕ → ℕ → DevicesResponse
page_of ds start size = record { devices = take size (drop start ds); total = length ds }

-- the two tests behind a page: `o` devices before it, `r` from it on, and `l` behind it
stops :
    (t o r k l : ℕ) → t ≡ o + r → k ≡ min 1000 r → l ≡ o + k → (k == 0 || leb t l) ≡ true → r ≤ 1000
stops t o r k l e m x h = ground arith

goes_on :
    (t o r k l : ℕ)
    → t ≡ o + r
    → k ≡ min 1000 r
    → l ≡ o + k
    → (k == 0 || leb t l) ≡ false
    → 1000 < r
goes_on t o r k l e m x h = ground arith

module _ (panel : DevicesPanel) (ds : List HwidDevice) where
  pub devices_loop_complete :
      (fuel page : ℕ) (out rest : List HwidDevice)
      → ((page start size : ℕ) → get_json (panel page start size) ≡ ok (page_of ds start size))
      → out ++ rest ≡ ds
      → page + 1 ≤ 10001
      → 10002 ≤ fuel + page
      → length rest + page * 1000 ≤ 10001000
      → devices_loop panel fuel page out ≡ ok ds
  unfolding devices_loop
  devices_loop_complete zero page out rest served e p f n = absurd (omega arith)
  devices_loop_complete (suc fuel) page out rest served e p f n =
      let early : ltb 10000 page ≡ false = ground arith in
      let taken = take 1000 rest in
      let left = drop 1000 rest in
      let here : take 1000 (drop (length out) ds) ≡ taken =
        ap (λ l. take 1000 (drop (length out) l)) (sym e) ∙ ap (take 1000) (drop-append out rest) in
      let more : (out ++ taken) ++ left ≡ ds = simp (append_assoc, take-append-drop 1000 rest) e in
      let total : length ds ≡ length out + length rest =
        ap (λ l. length l) (sym e) ∙ length-append out rest in
      let read = length-append out taken in
      let size = length-take 1000 rest in
      rw (early, served page (length out) 1000, here)
        (elim (Bool-cases (length taken == 0 || leb (length ds) (length (out ++ taken)))) [
          | inl done ↦
              rw done
                let none_left : left ≡ [] =
                    drop_all 1000 rest (stops _ _ _ _ _ total size read done) in
                  ap (λ l. ok l)
                    (sym (append-nil _) ∙ (ap (λ l. (out ++ taken) ++ l) (sym none_left) ∙ more))
          | inr go ↦
              let long = goes_on _ _ _ _ _ total size read go in
              rw go (
                devices_loop_complete fuel (page + 1) (out ++ taken) left served more
                  (omega (arith, n, long)) (omega arith)
                  (omega (arith, n, long, length-drop 1000 rest)))
        ])

-- While the panel's list of devices stays the same, and has 10001000 devices at most, and ClickHouse
-- prepares the batch, accepts every row and takes it, syncHwidDevices returns no error and stores the
-- row of every device, in the panel's order and each once, and nothing else.
pub sync_devices_complete :
    (panel : DevicesPanel) (db : String) (conn : Conn) (env : Env) (now : Time) (s : Syncer)
    (d : HwidDevice) (ds : List HwidDevice)
    → ((page start size : ℕ) → get_json (panel page start size) ≡ ok (page_of (d ∷ ds) start size))
    → length (d ∷ ds) ≤ 10001000
    → Answers db conn table_hwid_devices hwid_columns (map (λ d. hwid_row env d now) (d ∷ ds))
    → let r = sync_devices db conn env panel now s in
      (r.0 ≡ ok tt)
      × (stored table_hwid_devices r.1.log
          ≡ stored table_hwid_devices s.log ++ map (λ d. hwid_row env d now) (d ∷ ds))
unfolding sync_devices fetch_devices device_rows
sync_devices_complete panel db conn env now s d ds served n a =
    rw
      (devices_loop_complete panel (d ∷ ds) 10002 0 [] (d ∷ ds) served refl (omega arith)
        (omega arith) (omega (arith, n)))
      (store_result_complete db conn table_hwid_devices hwid_columns (hwid_row env d now)
        (map (λ d. hwid_row env d now) ds) s a)
