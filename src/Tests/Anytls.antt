-- ===== src/Tests/Anytls.antt =====
-- The theorems on src/anytls, at concrete inputs, and runs of the session loop.
use ruproxy.Bytes.{bytes_eq}
use ruproxy.Prelude.{ℕ, ◌≡◌, refl, subst, true, false, [], ◌∷◌, ◌++◌}
use ruproxy.Anytls.Session.{
  State, Frame, Scheme, Channel, new, handle_frame, handle_settings, handle_syn, open_stream,
  parse_kv, insert_lines, insert_line, version_of,
}
use ruproxy.Anytls.Session.Keeps.{Reach, IsSession, Reach-IsSession, state_of, frame, start}
use ruproxy.Anytls.Session.Routing.{handle_pshs, HasQueue, handle_pshs-HasQueue}
use ruproxy.Text.{
  lines, at_front, trim, drop_white, white_front, white_back, split_once, is_utf8, parse_unsigned,
  parse_digits,
}
use ruproxy.Map.{lookup, insert, remove, nat_eq, bytes_key}

-- "v = 2\r\nx"
trimmed :
    lines (b'v' ∷ 32 ∷ b'=' ∷ 32 ∷ b'2' ∷ 13 ∷ 10 ∷ b'x' ∷ [])
    ≡ (b'v' ∷ 32 ∷ b'=' ∷ 32 ∷ b'2' ∷ []) ∷ (b'x' ∷ []) ∷ []
unfolding lines at_front
trimmed = refl

abbrev scheme : Scheme
scheme = record { raw = 1 ∷ []; md5_hex = [] }

abbrev settings : Frame
settings = record { cmd = 4; sid = 0; data' = b'v' ∷ 32 ∷ b'=' ∷ 32 ∷ b'2' ∷ [] }

abbrev syn : ℕ → Frame
syn sid = record { cmd = 1; sid = sid; data' = [] }

abbrev empty : Channel
empty = record { queue = []; gone = false }

abbrev settled : State
settled = record {
  streams = [];
  channels = [];
  next = 0;
  peer_version = 2;
  received_settings = true;
  out = record { cmd = 10; sid = 0; data' = b'v' ∷ b'=' ∷ b'2' ∷ [] } ∷ [];
}

abbrev opened : State
opened = record settled {
  streams = (5, 1) ∷ (3, 0) ∷ [];
  channels = (1, empty) ∷ (0, empty) ∷ [];
  next = 2;
  out =
      settled.out
      ++ (record { cmd = 7; sid = 3; data' = [] } ∷ record { cmd = 7; sid = 5; data' = [] } ∷ []);
}

settings_run : state_of (handle_frame scheme settings new) ≡ settled
unfolding handle_frame handle_settings parse_kv insert_lines insert_line version_of lines at_front
    trim drop_white white_front white_back split_once is_utf8 parse_unsigned parse_digits lookup
    insert remove bytes_eq
settings_run = refl

syn_run :
    state_of (handle_frame scheme (syn 5) (state_of (handle_frame scheme (syn 3) settled))) ≡ opened
unfolding handle_frame handle_syn open_stream insert remove
syn_run = refl

opened-Reach : Reach scheme opened
opened-Reach =
    subst (Reach scheme) syn_run
      (frame (syn 5) (frame (syn 3) (subst (Reach scheme) settings_run (frame settings start))))

Reach-IsSession_example : IsSession opened
Reach-IsSession_example = Reach-IsSession scheme opened-Reach

handle_pshs-HasQueue_example :
    HasQueue 3 0
      ((1 ∷ []) ∷ (4 ∷ []) ∷ [])
      (handle_pshs ((3, 1 ∷ []) ∷ (5, 2 ∷ []) ∷ (3, 4 ∷ []) ∷ []) opened)
unfolding lookup
handle_pshs-HasQueue_example =
    handle_pshs-HasQueue 3 0 ((3, 1 ∷ []) ∷ (5, 2 ∷ []) ∷ (3, 4 ∷ []) ∷ []) [] opened
      (Reach-IsSession scheme opened-Reach) (refl, refl)
