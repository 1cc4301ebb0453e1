-- ===== src/Config/Paths/Socket.antt =====
-- `SocketPath` of internal/config/paths.go: the daemon and the commands meet on one socket.
use quptime.Prelude.{true, [], ◌∷◌, ◌≡◌, refl, sym, ◌∙◌}
use quptime.Config.Paths.{Place, socket_path, system_socket, socket_name}

-- A daemon that systemd starts with the runtime directory /run/quptime and a command without any of
-- the variables, whoever runs it, use one socket, once the daemon has made it.
pub socket_path-meets :
    (daemon command : Place)
    → daemon.getenv "QUPTIME_SOCKET" ≡ ""
    → command.getenv "QUPTIME_SOCKET" ≡ ""
    → daemon.getenv "RUNTIME_DIRECTORY" ≡ "/run/quptime"
    → command.getenv "RUNTIME_DIRECTORY" ≡ ""
    → daemon.join (daemon.before_colon "/run/quptime" ∷ socket_name ∷ []) ≡ system_socket
    → command.exists (socket_path daemon) ≡ true
    → socket_path daemon ≡ socket_path command
unfolding socket_path
socket_path-meets daemon command a b c d j e =
    let mine : socket_path daemon ≡ system_socket = rw (a, c) j in
    let there : command.exists system_socket ≡ true = rw mine at e in
    mine ∙ sym (rw (b, d, there) refl)
