-- ===== src/Dict/Devices.antt =====
-- The fuel of the device loop is enough.
pub mod Complete
use remnanode_exporter.Sink.{Conn}
use remnanode_exporter.Model.{Time}
use remnanode_exporter.Panel.{Env}
use remnanode_exporter.Panel.Devices.{hwid_columns, HwidDevice}
use remnanode_exporter.Dict.{
  get_json, table_hwid_devices, Syncer, not_terminated, api, out_of_fuel, SyncError, ApiError,
}
use remnanode_exporter.Prelude.{
  ℕ, zero, suc, ◌+◌, ◌≤◌, String, ◌≡◌, refl, ap, ◌≢◌, Bool, true, false, ◌||◌, List, [], ◌++◌,
  arith, ltb, leb, ◌==◌, if◌then◌else◌, length, Result, ok, err,
}
use remnanode_exporter.Dict.Hwid.{
  hwid_page_size, devices_fuel, fetch_devices, DevicesResponse, sync_devices, device_rows,
  DevicesPanel, devices_loop,
}
use remnanode_exporter.Dict.Paging.{store_result_ne}

module _ (panel : DevicesPanel) where
  page_ne :
      (x : Result ApiError DevicesResponse)
      (f : DevicesResponse → Result SyncError (List HwidDevice))
      → ((r : DevicesResponse) → f r ≢ err out_of_fuel)
      → elim x [ ok r ↦ f r | err e ↦ err (api e) ] ≢ err out_of_fuel
  page_ne (ok r) f h = h r
  page_ne (err e) f h = λ z. cc

  last_ne :
      (b : Bool) (out : List HwidDevice) (rest : Result SyncError (List HwidDevice))
      → rest ≢ err out_of_fuel
      → (if b then ok out else rest) ≢ err out_of_fuel
  last_ne true out rest h = λ z. cc
  last_ne false out rest h = h

  stop_ne :
      (b : Bool) (rest : Result SyncError (List HwidDevice))
      → (b ≡ false → rest ≢ err out_of_fuel)
      → (if b then err not_terminated else rest) ≢ err out_of_fuel
  stop_ne true rest h = λ z. cc
  stop_ne false rest h = h refl

  devices_more :
      (fuel page : ℕ) (out : List HwidDevice)
      → 10002 ≤ fuel + page
      → page ≤ 10001
      → devices_loop panel fuel page out ≢ err out_of_fuel
  unfolding devices_loop
  devices_more zero page out f p = absurd (omega arith)
  devices_more (suc fuel) page out f p = stop_ne (ltb 10000 page) _ (λ z.
      page_ne (get_json (panel page (length out) hwid_page_size)) _ (λ r.
        last_ne (length r.devices == 0 || leb r.total (length (out ++ r.devices)))
          (out ++ r.devices) _
          (devices_more fuel (page + 1) (out ++ r.devices) (omega arith) (ground arith))))

  device_rows_ne :
      (env : Env) (now : Time) (r : Result SyncError (List HwidDevice))
      → r ≢ err out_of_fuel
      → device_rows env now r ≢ err out_of_fuel
  unfolding device_rows
  device_rows_ne env now (ok ds) h = λ z. cc
  device_rows_ne env now (err e) h =
      λ z. let same : e ≡ out_of_fuel = cc in h (ap (λ x. err x) same)

  -- The loop of fetchHwidDevices ends: whatever pages and totals the panel serves, the 10002 rounds that
  -- the model allows it are never used up.
  pub sync_devices-ne-out_of_fuel :
      (db : String) (conn : Conn) (env : Env) (now : Time) (s : Syncer)
      → (sync_devices db conn env panel now s).0 ≢ err out_of_fuel
  unfolding sync_devices fetch_devices
  sync_devices-ne-out_of_fuel db conn env now s =
      store_result_ne db conn table_hwid_devices hwid_columns _ s (
        device_rows_ne env now _
          (devices_more (devices_fuel panel) 0 [] (omega arith) (omega arith)))
