-- ===== src/Listener.antt =====
-- Where the bridge listens: bridge_service/src/bridge_listener_unix.go, and bridgePort of
-- bridge_service/src/main.go, on Linux.
pub mod Private
use hwcontrol.Base.{
  ℕ, ◌/◌, ◌%◌, String, Bool, true, false, not, ◌&&◌, ◌||◌, ◌==◌, List, [], ◌∷◌, ◌++◌, Option, none,
  some, if◌then◌else◌, str_eq,
}
use hwcontrol.Base.Result.{Result, ok, err, fail_if, ◌>>=◌, ◌>>◌}
use hwcontrol.Command.{◌<>◌}
use hwcontrol.Int.{ℤ, pos, ltb_ℤ}
use hwcontrol.Text.{trim_space}
use hwcontrol.Text.Clean.{is_rooted, dir}
use hwcontrol.Text.Decimal.{format_int}
use hwcontrol.Text.Number.{atoi}

abbrev pub default_bridge_port : String
default_bridge_port = "8080"

abbrev pub port_of : Option ℤ → String
port_of none = default_bridge_port
port_of (some parsed) =
    if ltb_ℤ parsed (pos 1) || ltb_ℤ (pos 65535) parsed
    then default_bridge_port
    else format_int parsed

unfoldable pub bridge_port : String → String
unfolding trim_space atoi format_int
bridge_port env_port =
    let port = trim_space env_port in
    if str_eq port "" then default_bridge_port else port_of (atoi port)

unfoldable pub bridge_socket_path : String → String
bridge_socket_path env_socket =
    if not (str_eq env_socket "") then env_socket else "/var/lib/hwcontrol/bridge.sock"

-- What os.Lstat says of the socket's directory.
pub data ParentEntry : Type 0 where
  unseen : (message : String) → ParentEntry
  linked : ParentEntry
  no_directory : ParentEntry
  real_directory : (permissions : ℕ) → ParentEntry

-- What os.Lstat says of the socket's path.
pub data SocketEntry : Type 0 where
  nothing : SocketEntry
  uninspected : (message : String) → SocketEntry
  symbolic : SocketEntry
  no_socket : SocketEntry
  stale_socket : SocketEntry

-- What the calls give, in their order. `ids` are the user and the group of the directory; `chown` is
-- `none` where these cannot be read.
pub record ListenReadings : Type 0 where
  pub env_tcp_compat : String
  pub env_port : String
  pub env_socket : String
  pub listen_tcp : Result (Unit {0})
  pub mkdir : Result (Unit {0})
  pub parent : ParentEntry
  pub entry : SocketEntry
  pub remove : Result (Unit {0})
  pub listen_unix : Result (Unit {0})
  pub ids : ℕ × ℕ
  pub chown : Option (Result (Unit {0}))
  pub chmod : Result (Unit {0})

pub data ListenEffect : Type 0 where
  removed_stale : (path : String) → ListenEffect
  opened : (network address : String) → ListenEffect
  owner_set : (path : String) (uid gid : ℕ) → ListenEffect
  mode_set : (path : String) (mode : ℕ) → ListenEffect
  closed_and_removed : (path : String) → ListenEffect

-- The listener or an error, the endpoint, and what was done.
pub record Listening : Type 0 where
  pub listener : Result (Unit {0})
  pub endpoint : String
  pub effects : List ListenEffect

abbrev pub no_listener : String → String → Listening
no_listener endpoint message = record { listener = err message; endpoint = endpoint; effects = [] }

abbrev pub after_effect : ListenEffect → Listening → Listening
after_effect e l = record l { effects = e ∷ l.effects }

-- Perm()&0022
abbrev pub others_write : ℕ → Bool
others_write permissions = (permissions / 16) % 2 == 1 || (permissions / 2) % 2 == 1

abbrev pub check_parent : ParentEntry → Result (Unit {0})
check_parent (unseen e) = err ("inspect bridge socket directory: " <> e)
check_parent linked = err "bridge socket parent must be a real directory"
check_parent no_directory = err "bridge socket parent must be a real directory"
check_parent (real_directory permissions) =
    fail_if (others_write permissions) "bridge socket parent must not be group- or world-writable"

abbrev pub labelled_error : String → Result (Unit {0}) → Result (Unit {0})
labelled_error label (err e) = err (label <> e)
labelled_error label (ok done) = ok tt

-- The checks before the path itself is looked at.
unfoldable pub check_directory : String → ListenReadings → Result (Unit {0})
check_directory path seen = do
  fail_if (not (is_rooted path)) "bridge socket path must be absolute"
  labelled_error "create bridge socket directory: " seen.mkdir
  check_parent seen.parent

abbrev give_up : String → String → Listening
give_up path message = record {
  listener = err message;
  endpoint = path;
  effects = closed_and_removed path ∷ [];
}

-- 432 is 0660.
abbrev pub set_mode : String → Result (Unit {0}) → Listening
set_mode path (err e) = give_up path ("protect bridge socket: " <> e)
set_mode path (ok done) = record {
  listener = ok tt;
  endpoint = path;
  effects = mode_set path 432 ∷ [];
}

abbrev pub set_owner : String → ℕ × ℕ → Option (Result (Unit {0})) → Result (Unit {0}) → Listening
set_owner path ids none chmod = set_mode path chmod
set_owner path ids (some (err e)) chmod = give_up path ("set bridge socket ownership: " <> e)
set_owner path ids (some (ok done)) chmod =
    after_effect (owner_set path ids.0 ids.1) (set_mode path chmod)

abbrev pub listen_at :
    String → Result (Unit {0}) → ℕ × ℕ → Option (Result (Unit {0})) → Result (Unit {0}) → Listening
listen_at path (err e) ids chown chmod =
    no_listener path ("listen on unix socket " <> path <> ": " <> e)
listen_at path (ok done) ids chown chmod =
    after_effect (opened "unix" path) (set_owner path ids chown chmod)

abbrev pub replace_stale : String → Result (Unit {0}) → ListenReadings → Listening
replace_stale path (err e) seen = no_listener path ("remove stale bridge socket: " <> e)
replace_stale path (ok done) seen =
    after_effect (removed_stale path)
      (listen_at path seen.listen_unix seen.ids seen.chown seen.chmod)

abbrev pub listen_over : String → SocketEntry → ListenReadings → Listening
listen_over path nothing seen = listen_at path seen.listen_unix seen.ids seen.chown seen.chmod
listen_over path (uninspected e) seen = no_listener path ("inspect bridge socket: " <> e)
listen_over path symbolic seen = no_listener path "bridge socket must not be a symlink"
listen_over path no_socket seen =
    no_listener path ("refusing to replace non-socket endpoint " <> path)
listen_over path stale_socket seen = replace_stale path seen.remove seen

abbrev pub listen_checked : String → Result (Unit {0}) → ListenReadings → Listening
listen_checked path (err e) seen = no_listener path e
listen_checked path (ok done) seen = listen_over path seen.entry seen

abbrev pub listen_local : String → Result (Unit {0}) → Listening
listen_local endpoint (err e) = no_listener endpoint ("listen on compatibility TCP endpoint: " <> e)
listen_local endpoint (ok done) = record {
  listener = ok tt;
  endpoint = endpoint;
  effects = opened "tcp" endpoint ∷ [];
}

unfoldable pub bridge_endpoint : ListenReadings → String
unfolding bridge_port bridge_socket_path
bridge_endpoint seen =
    if str_eq seen.env_tcp_compat "1"
    then "127.0.0.1:" <> bridge_port seen.env_port
    else bridge_socket_path seen.env_socket

unfoldable pub listen_bridge : ListenReadings → Listening
unfolding bridge_port bridge_socket_path check_directory
listen_bridge seen =
    let path = bridge_socket_path seen.env_socket in
    if str_eq seen.env_tcp_compat "1"
    then listen_local ("127.0.0.1:" <> bridge_port seen.env_port) seen.listen_tcp
    else listen_checked path (check_directory path seen) seen
