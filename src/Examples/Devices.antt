-- ===== src/Examples/Devices.antt =====
-- Runs of the registration of devices.
use vpn_panel.Prelude.{◌≤◌, ◌≡◌, refl, true, none, some, List, [], ◌∷◌, arith}
use vpn_panel.Devices.{
  active, UserDevice, Request, count_user_devices, get_user_device_by_hwid, hwid_of,
  hard_mode_blocks_new_device, add_device, register_user_device,
}
use vpn_panel.Devices.Outcome.{found}
use vpn_panel.Devices.Register.{IsRegistered, register-IsRegistered, register-count-le}

abbrev phone : UserDevice
phone = record {
  id = 1;
  user_id = 7;
  hwid = "aa";
  device_os = some "iOS";
  ver_os = none;
  device_model = none;
  user_agent = none;
  last_ip = none;
  status = active;
  first_seen = 10;
  last_seen = 20;
}

abbrev laptop : UserDevice
laptop = record phone { id = 2; hwid = "bb"; first_seen = 5 }

abbrev table : List UserDevice
table = phone ∷ laptop ∷ []

abbrev request : Request
request = record {
  hwid = some " cc ";
  device_os = none;
  ver_os = none;
  device_model = none;
  user_agent = none;
  client_ip = none;
}

free_test : found 7 request table ≡ none
unfolding get_user_device_by_hwid hwid_of
free_test = refl

count_test : count_user_devices 7 table ≡ 2
unfolding count_user_devices
count_test = refl

added_test : (register_user_device 30 (some 3) true 7 request [] table).1.0 ≡ true
unfolding register_user_device get_user_device_by_hwid hard_mode_blocks_new_device add_device
    hwid_of count_user_devices
added_test = refl

register-IsRegistered_example :
    IsRegistered 7 (hwid_of request) (register_user_device 30 (some 3) true 7 request [] table).0
register-IsRegistered_example =
    register-IsRegistered 30 (some 3) true 7 request [] table tt added_test

register-count-le_example :
    count_user_devices 7 (register_user_device 30 (some 2) true 7 request [] table).0 ≤ 2
register-count-le_example =
    register-count-le 30 2 7 request table (omega arith) (λ d e. ((λ q. refl), ((λ q. refl), tt)))
      (omega (arith, count_test))
