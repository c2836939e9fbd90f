-- ===== src/Dict/Hwid.antt =====
-- internal/dict/hwid.go: the refresh of dim_hwid_devices.
use remnanode_exporter.Events.{Row}
use remnanode_exporter.Sink.{Conn}
use remnanode_exporter.Model.{Time}
use remnanode_exporter.Prelude.{
  ℕ, zero, suc, ◌+◌, String, ◌||◌, List, [], ◌++◌, map, ltb, leb, ◌==◌, if◌then◌else◌, length,
  Result, ok, err,
}
use remnanode_exporter.Panel.Devices.{HwidDevice, hwid_row, hwid_columns}
use remnanode_exporter.Panel.{Env}
use remnanode_exporter.Dict.{
  not_terminated, table_hwid_devices, api, store_result, get_json, out_of_fuel, Syncer, SyncError,
  HttpAnswer,
}

abbrev pub hwid_page_size : ℕ
hwid_page_size = 1000

-- hwidDevicesResponse
pub record DevicesResponse : Type 0 where
  pub devices : List HwidDevice
  pub total : ℕ

-- the answer to request `page` for `start` and `size`
abbrev pub DevicesPanel : Type 0
DevicesPanel = ℕ → ℕ → ℕ → HttpAnswer DevicesResponse

module _ (panel : DevicesPanel) where
  -- the loop of fetchHwidDevices over `page` and `out`
  unfoldable pub devices_loop : ℕ → ℕ → List HwidDevice → Result SyncError (List HwidDevice)
  devices_loop zero page out = err out_of_fuel
  devices_loop (suc fuel) page out =
      let answer = get_json (panel page (length out) hwid_page_size) in
      let next : Result SyncError (List HwidDevice) = elim answer [
        | err e ↦ err (api e)
        | ok r ↦
            let out' = out ++ r.devices in
            let rest = devices_loop fuel (page + 1) out' in
            if length r.devices == 0 || leb r.total (length out') then ok out' else rest
      ] in
      if ltb 10000 page then err not_terminated else next

  -- page runs from 0 to 10001 at most
  abbrev pub devices_fuel : ℕ
  devices_fuel = 10002

  -- fetchHwidDevices
  unfoldable pub fetch_devices : Result SyncError (List HwidDevice)
  fetch_devices = devices_loop devices_fuel 0 []

unfoldable pub device_rows :
    Env → Time → Result SyncError (List HwidDevice) → Result SyncError (List Row)
device_rows env now (err e) = err e
device_rows env now (ok ds) = ok (map (λ d. hwid_row env d now) ds)

-- syncHwidDevices
unfoldable pub sync_devices :
    String → Conn → Env → DevicesPanel → Time → Syncer → Result SyncError (Unit {0}) × Syncer
sync_devices db conn env panel now s =
    store_result db conn table_hwid_devices hwid_columns (device_rows env now (fetch_devices panel))
      s
