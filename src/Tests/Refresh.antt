-- ===== src/Tests/Refresh.antt =====
-- Runs of internal/dict/dict.go at concrete answers of the panel, and of the decoders.
use remnanode_exporter.Dict.Hwid.{sync_devices, DevicesPanel}
use remnanode_exporter.Panel.Devices.{HwidDevice, hwid_row}
use remnanode_exporter.Events.{stored}
use remnanode_exporter.Model.{Codec}
use remnanode_exporter.Netip.{v4, Netip}
use remnanode_exporter.Sink.{Conn}
use remnanode_exporter.Panel.{user_row, ApiNode, StreamUser, Env}
use remnanode_exporter.Dict.Devices.Complete.{sync_devices_complete, page_of}
use remnanode_exporter.Dict.Refresh.Failures.{Refreshing, users, call, call_fails}
use remnanode_exporter.Prelude.{
  ℕ, ◌≡◌, refl, ◌≢◌, true, false, none, some, [], ◌∷◌, ◌++◌, arith, if◌then◌else◌, codes, text_eq,
  length, ok, err, pos,
}
use remnanode_exporter.Dict
use remnanode_exporter.Dict.{
  status_error, api, store_result, users_loop, table_hwid_devices, users_path, users_page,
  fetch_users_page, table_users, next_of, out_of_fuel, decoded, sync_users, get_json, UsersPanel,
  UsersResponse, response,
}
use remnanode_exporter.Dict.Paging.{
  no_more, Serves, sync_users-ne-out_of_fuel, sync_users_complete, last, more,
}

abbrev env : Env
env = record { wide = λ w f. 0; time_parse = λ t. some (pos (length t)) }

abbrev conn : Conn
conn = record { prepares = true; accepts = λ row. true; sends = true }

abbrev user : ℕ → StreamUser
user n = record {
  id = pos n;
  username = codes "ada";
  status = codes "ACTIVE";
  tag = none;
  traffic_limit_bytes = record { numerator = pos 5; shift = 0 };
  traffic_limit_strategy = codes "MONTH";
  hwid_device_limit = none;
  telegram_id = some (pos 77);
  expire_at = codes "2027";
  created_at = codes "2026";
  sub_revoked_at = none;
  active_internal_squads = [];
  used_traffic_bytes = record { numerator = pos 7; shift = 1 };
  lifetime_used_traffic_bytes = record { numerator = pos 9; shift = 0 };
  online_at = none;
  first_connected_at = none;
  last_connected_node_uuid = none;
}

abbrev first_page : UsersResponse
first_page = record { users = user 1 ∷ []; next_cursor = some (codes "n"); has_more = true }

abbrev last_page : UsersResponse
last_page = record { users = user 2 ∷ []; next_cursor = none; has_more = false }

abbrev users_panel : UsersPanel
users_panel page path = response 200 (
    some (
      if text_eq path (codes "/api/users/stream?size=1000&cursor=n")
      then last_page
      else first_page))

two_pages-Serves :
    Serves users_panel 2 0 (codes "/api/users/stream?size=1000") (user 1 ∷ user 2 ∷ [])
two_pages-Serves =
    more first_page (codes "n") refl refl refl (λ z. cc) (last last_page refl (no_more refl))

sync_users_complete_example :
    ((sync_users "db" conn env users_panel (pos 9) Dict.new).0 ≡ ok tt)
    × (stored table_users (sync_users "db" conn env users_panel (pos 9) Dict.new).1.log
        ≡ stored table_users Dict.new.log
          ++ user_row env (user 1) (pos 9) ∷ user_row env (user 2) (pos 9) ∷ [])
sync_users_complete_example =
    sync_users_complete users_panel env (pos 9) "db" conn Dict.new 2 (user 1) (user 2 ∷ [])
      two_pages-Serves (omega arith) (refl, (refl, (refl, tt)), refl)

-- a panel that always has one more page
abbrev endless_panel : UsersPanel
endless_panel page path = response 200 (some first_page)

sync_users-ne-out_of_fuel_example :
    (sync_users "db" conn env endless_panel (pos 9) Dict.new).0 ≢ err out_of_fuel
sync_users-ne-out_of_fuel_example =
    sync_users-ne-out_of_fuel endless_panel env (pos 9) "db" conn Dict.new

abbrev pub netip : Netip
netip = record {
  parse_addr = λ t. elim t [ [] ↦ none | c ∷ cs ↦ some (v4 c) ];
  show_addr = λ a. [];
}

abbrev pub node : ApiNode
node = record {
  id = pos 4;
  uuid = codes "u";
  name = codes "n";
  country_code = codes "DE";
  address = codes "node.example.org";
  tags = none;
  provider = none;
  ips = codes "A" ∷ [] ∷ [];
}

abbrev codec : Codec
codec = record { time_parse = λ t. some (pos 1); users_decode = λ t. some [] }

abbrev device : HwidDevice
device = record {
  hwid = codes "h";
  user_id = pos 1;
  platform = none;
  os_version = none;
  device_model = none;
  user_agent = none;
  request_ip = none;
  created_at = codes "2026";
  updated_at = codes "2026";
}

-- a panel with two devices
abbrev devices_panel : DevicesPanel
devices_panel page start size = response 200 (some (page_of (device ∷ device ∷ []) start size))

sync_devices_complete_example :
    ((sync_devices "db" conn env devices_panel (pos 9) Dict.new).0 ≡ ok tt)
    × (stored table_hwid_devices (sync_devices "db" conn env devices_panel (pos 9) Dict.new).1.log
        ≡ stored table_hwid_devices Dict.new.log
          ++ hwid_row env device (pos 9) ∷ hwid_row env device (pos 9) ∷ [])
unfolding get_json decoded
sync_devices_complete_example =
    sync_devices_complete devices_panel "db" conn env (pos 9) Dict.new device (device ∷ [])
      (λ page start size. refl) (omega arith) (refl, (refl, (refl, tt)), refl)

-- a panel that fails at the second page
abbrev failing_panel : UsersPanel
unfolding users_path
failing_panel page path =
    if text_eq path (users_path (codes "n"))
    then response 500 none
    else response 200 (some first_page)

abbrev failing : Refreshing
failing = users conn env failing_panel (pos 9)

call_fails_example : stored table_users (call "db" failing Dict.new).1.log ≡ stored table_users []
unfolding sync_users users_loop fetch_users_page users_page users_path next_of get_json decoded
    store_result Dict.new
call_fails_example = call_fails "db" failing Dict.new (api (status_error 500)) table_users refl
