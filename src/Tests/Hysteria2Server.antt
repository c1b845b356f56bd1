-- ===== src/Tests/Hysteria2Server.antt =====
-- The theorems on src/hysteria2/server.rs, at concrete inputs.
use ruproxy.Hysteria2.Sessions.Twice.{three_frames, task_of, three_frames-Ended}
use ruproxy.Bytes.{Bytes, bytes_eq}
use ruproxy.Hysteria2.Gate.Passed.{FirstAuth, handle_connection-served}
use ruproxy.Hysteria2.Frame.{UdpFrame, build_single_udp_frame}
use ruproxy.Hysteria2.Sessions.Routed.{IsRouted, Reach-IsRouted}
use ruproxy.Io.{Result}
use ruproxy.Hysteria2.Gate.{
  password, request, unresolved, HttpRequest, handle_connection, auth_loop, auth_host, accepts,
  auth_path, unwrap_or, tcp_streams,
}
use ruproxy.Hysteria2.Sessions.{
  start, after, datagram, Sessions, end_session, spawn, on_datagram, new_sessions,
}
use ruproxy.Prelude.{ℕ, ◌≡◌, ◌≢◌, refl, true, false, Option, none, some, List, [], ◌∷◌, arith}
use ruproxy.Map.{nat_eq, lookup, insert, remove}

abbrev page : HttpRequest
page = record {
  is_post = false;
  host = none;
  path = b'/' ∷ [];
  hysteria_auth = none;
  takes_answer = true;
}

abbrev login : HttpRequest
login = record {
  is_post = true;
  host = some auth_host;
  path = auth_path;
  hysteria_auth = some (1 ∷ 2 ∷ []);
  takes_answer = true;
}

abbrev served : List (Result (Option Bytes × Bytes))
served =
    handle_connection (password (1 ∷ 2 ∷ [])) none (request page ∷ unresolved ∷ request login ∷ [])
      ([] ∷ [])

served-ne : served ≢ []
unfolding handle_connection auth_loop bytes_eq
served-ne h = cc

handle_connection-served_example :
    (r : HttpRequest) × FirstAuth (request page ∷ unresolved ∷ request login ∷ []) r
    × (accepts (password (1 ∷ 2 ∷ [])) (unwrap_or r.hysteria_auth []) ≡ true)
    × (served ≡ tcp_streams ([] ∷ []))
handle_connection-served_example =
    handle_connection-served (password (1 ∷ 2 ∷ [])) none
      (request page ∷ unresolved ∷ request login ∷ []) ([] ∷ []) served-ne

abbrev frame : ℕ → UdpFrame
frame id = record {
  session_id = 7;
  packet_id = id;
  frag_id = 0;
  frag_total = 1;
  addr = b'a' ∷ [];
  port = 53;
  payload = id ∷ [];
}

-- The first session, after its task has ended.
abbrev after_end : Sessions
after_end = end_session 0 (spawn (frame 1) new_sessions)

three_frames-Ended_example :
    ((three_frames (frame 2) (frame 3) (frame 4) 0 after_end).task 1 ≡ task_of (frame 3))
    × ((three_frames (frame 2) (frame 3) (frame 4) 0 after_end).task 2 ≡ task_of (frame 4))
    × (lookup 7 (three_frames (frame 2) (frame 3) (frame 4) 0 after_end).session_map ≡ some 2)
unfolding lookup insert remove
three_frames-Ended_example =
    three_frames-Ended (frame 2) (frame 3) (frame 4) 0 after_end refl refl
      (record { entry = refl; session = refl; alive = refl; small = omega arith })

-- Two datagrams of one session.
abbrev dgram : Bytes
dgram = build_single_udp_frame 7 1 0 1 (b'a' ∷ b':' ∷ b'5' ∷ []) (9 ∷ [])

Reach-IsRouted_example : IsRouted (on_datagram dgram (on_datagram dgram new_sessions))
Reach-IsRouted_example = Reach-IsRouted {s = on_datagram dgram (on_datagram dgram new_sessions)} (
    after (after start (datagram dgram new_sessions))
      (datagram dgram (on_datagram dgram new_sessions)))
