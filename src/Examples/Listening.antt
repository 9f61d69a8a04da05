-- ===== src/Examples/Listening.antt =====
-- Listening where an earlier run left its socket behind.
use hwcontrol.Base.{true, false, ◌≡◌, ◌↔◌, refl, [], ◌∷◌, some}
use hwcontrol.Base.Result.{ok, is_ok}
use hwcontrol.Listener.{
  real_directory, stale_socket, ListenReadings, removed_stale, opened, owner_set, mode_set,
  bridge_endpoint, listen_bridge, bridge_port,
}
use hwcontrol.Listener.Private.{IsReady, left_open, removes_stale, listener_is_private}

abbrev seen : ListenReadings
seen = record {
  env_tcp_compat = "";
  env_port = "";
  env_socket = "";
  listen_tcp = ok tt;
  mkdir = ok tt;
  parent = real_directory 488;
  entry = stale_socket;
  remove = ok tt;
  listen_unix = ok tt;
  ids = (1000, 1000);
  chown = some (ok tt);
  chmod = ok tt;
}

stale_socket_replaced : listen_bridge seen ≡ record {
  listener = ok tt;
  endpoint = "/var/lib/hwcontrol/bridge.sock";
  effects =
      removed_stale "/var/lib/hwcontrol/bridge.sock"
      ∷ opened "unix" "/var/lib/hwcontrol/bridge.sock"
      ∷ owner_set "/var/lib/hwcontrol/bridge.sock" 1000 1000
      ∷ mode_set "/var/lib/hwcontrol/bridge.sock" 432
      ∷ [];
}
unfolding listen_bridge hwcontrol.Listener.check_directory hwcontrol.Listener.bridge_socket_path
stale_socket_replaced = refl

port_out_of_range : bridge_port "70000" ≡ "8080"
unfolding bridge_port
port_out_of_range = refl

port_normalised : bridge_port " 0443" ≡ "443"
unfolding bridge_port
port_normalised = refl

listener_is_private_example :
    (((listen_bridge seen).listener ≡ ok tt) ↔ IsReady seen)
    × (left_open (listen_bridge seen).effects false ≡ is_ok (listen_bridge seen).listener)
    × (removes_stale (listen_bridge seen).effects ≡ true → seen.entry ≡ stale_socket)
    × ((listen_bridge seen).endpoint ≡ bridge_endpoint seen)
listener_is_private_example = listener_is_private seen refl
