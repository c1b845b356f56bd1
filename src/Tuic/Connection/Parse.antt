-- ===== src/Tuic/Connection/Parse.antt =====
-- `parse_command_with_prefix` of src/tuic/connection.rs: the commands on a stream.
use ruproxy.Prelude.{ℕ, ◌==◌, if◌then◌else◌}
use ruproxy.Io.{Reader, ◌>>=◌, ◌>>◌, done, bail, guard, unsupported_version, unknown_command}
use ruproxy.Tuic.Proto.{
  Command, connect, heartbeat, read_from, read_authenticate, read_packet, read_dissociate, version,
  cmd_authenticate, cmd_connect, cmd_packet, cmd_dissociate, cmd_heartbeat,
}

unfoldable pub read_connect : Reader Command
read_connect = do addr ← read_from; done (connect addr)

unfoldable pub parse_body : ℕ → Reader Command
parse_body cmd =
    if cmd == cmd_authenticate
    then read_authenticate
    else if cmd == cmd_connect
    then read_connect
    else if cmd == cmd_packet
    then read_packet
    else if cmd == cmd_dissociate
    then read_dissociate
    else if cmd == cmd_heartbeat
    then done heartbeat
    else bail unknown_command

unfoldable pub parse_command_with_prefix : ℕ → ℕ → Reader Command
parse_command_with_prefix ver cmd = do guard (ver == version) unsupported_version; parse_body cmd
