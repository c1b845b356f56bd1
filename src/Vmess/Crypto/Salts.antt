-- ===== src/Vmess/Crypto/Salts.antt =====
-- The salts of src/vmess/mod.rs, and the other texts that go into its keys.
use ruproxy.Bytes.{Bytes}
use ruproxy.Prelude.{[], ◌∷◌}

abbrev pub kdf_root : Bytes
kdf_root =
    b'V' ∷ b'M' ∷ b'e' ∷ b's' ∷ b's' ∷ b' ' ∷ b'A' ∷ b'E' ∷ b'A' ∷ b'D' ∷ b' ' ∷ b'K' ∷ b'D' ∷ b'F'
    ∷ []

abbrev pub kdf_auth_id : Bytes
kdf_auth_id =
    b'A' ∷ b'E' ∷ b'S' ∷ b' ' ∷ b'A' ∷ b'u' ∷ b't' ∷ b'h' ∷ b' ' ∷ b'I' ∷ b'D' ∷ b' ' ∷ b'E' ∷ b'n'
    ∷ b'c' ∷ b'r' ∷ b'y' ∷ b'p' ∷ b't' ∷ b'i' ∷ b'o' ∷ b'n' ∷ []

abbrev pub kdf_hdr_len_key : Bytes
kdf_hdr_len_key =
    b'V' ∷ b'M' ∷ b'e' ∷ b's' ∷ b's' ∷ b' ' ∷ b'H' ∷ b'e' ∷ b'a' ∷ b'd' ∷ b'e' ∷ b'r' ∷ b' ' ∷ b'A'
    ∷ b'E' ∷ b'A' ∷ b'D' ∷ b' ' ∷ b'K' ∷ b'e' ∷ b'y' ∷ b'_' ∷ b'L' ∷ b'e' ∷ b'n' ∷ b'g' ∷ b't'
    ∷ b'h' ∷ []

abbrev pub kdf_hdr_len_iv : Bytes
kdf_hdr_len_iv =
    b'V' ∷ b'M' ∷ b'e' ∷ b's' ∷ b's' ∷ b' ' ∷ b'H' ∷ b'e' ∷ b'a' ∷ b'd' ∷ b'e' ∷ b'r' ∷ b' ' ∷ b'A'
    ∷ b'E' ∷ b'A' ∷ b'D' ∷ b' ' ∷ b'N' ∷ b'o' ∷ b'n' ∷ b'c' ∷ b'e' ∷ b'_' ∷ b'L' ∷ b'e' ∷ b'n'
    ∷ b'g' ∷ b't' ∷ b'h' ∷ []

abbrev pub kdf_hdr_key : Bytes
kdf_hdr_key =
    b'V' ∷ b'M' ∷ b'e' ∷ b's' ∷ b's' ∷ b' ' ∷ b'H' ∷ b'e' ∷ b'a' ∷ b'd' ∷ b'e' ∷ b'r' ∷ b' ' ∷ b'A'
    ∷ b'E' ∷ b'A' ∷ b'D' ∷ b' ' ∷ b'K' ∷ b'e' ∷ b'y' ∷ []

abbrev pub kdf_hdr_iv : Bytes
kdf_hdr_iv =
    b'V' ∷ b'M' ∷ b'e' ∷ b's' ∷ b's' ∷ b' ' ∷ b'H' ∷ b'e' ∷ b'a' ∷ b'd' ∷ b'e' ∷ b'r' ∷ b' ' ∷ b'A'
    ∷ b'E' ∷ b'A' ∷ b'D' ∷ b' ' ∷ b'N' ∷ b'o' ∷ b'n' ∷ b'c' ∷ b'e' ∷ []

abbrev pub kdf_resp_len_key : Bytes
kdf_resp_len_key =
    b'A' ∷ b'E' ∷ b'A' ∷ b'D' ∷ b' ' ∷ b'R' ∷ b'e' ∷ b's' ∷ b'p' ∷ b' ' ∷ b'H' ∷ b'e' ∷ b'a' ∷ b'd'
    ∷ b'e' ∷ b'r' ∷ b' ' ∷ b'L' ∷ b'e' ∷ b'n' ∷ b' ' ∷ b'K' ∷ b'e' ∷ b'y' ∷ []

abbrev pub kdf_resp_len_iv : Bytes
kdf_resp_len_iv =
    b'A' ∷ b'E' ∷ b'A' ∷ b'D' ∷ b' ' ∷ b'R' ∷ b'e' ∷ b's' ∷ b'p' ∷ b' ' ∷ b'H' ∷ b'e' ∷ b'a' ∷ b'd'
    ∷ b'e' ∷ b'r' ∷ b' ' ∷ b'L' ∷ b'e' ∷ b'n' ∷ b' ' ∷ b'I' ∷ b'V' ∷ []

abbrev pub kdf_resp_pay_key : Bytes
kdf_resp_pay_key =
    b'A' ∷ b'E' ∷ b'A' ∷ b'D' ∷ b' ' ∷ b'R' ∷ b'e' ∷ b's' ∷ b'p' ∷ b' ' ∷ b'H' ∷ b'e' ∷ b'a' ∷ b'd'
    ∷ b'e' ∷ b'r' ∷ b' ' ∷ b'K' ∷ b'e' ∷ b'y' ∷ []

abbrev pub kdf_resp_pay_iv : Bytes
kdf_resp_pay_iv =
    b'A' ∷ b'E' ∷ b'A' ∷ b'D' ∷ b' ' ∷ b'R' ∷ b'e' ∷ b's' ∷ b'p' ∷ b' ' ∷ b'H' ∷ b'e' ∷ b'a' ∷ b'd'
    ∷ b'e' ∷ b'r' ∷ b' ' ∷ b'I' ∷ b'V' ∷ []

abbrev pub auth_len_salt : Bytes
auth_len_salt = b'a' ∷ b'u' ∷ b't' ∷ b'h' ∷ b'_' ∷ b'l' ∷ b'e' ∷ b'n' ∷ []

abbrev pub cmd_key_salt : Bytes
cmd_key_salt =
    b'c' ∷ b'4' ∷ b'8' ∷ b'6' ∷ b'1' ∷ b'9' ∷ b'f' ∷ b'e' ∷ b'-' ∷ b'8' ∷ b'f' ∷ b'0' ∷ b'2' ∷ b'-'
    ∷ b'4' ∷ b'9' ∷ b'e' ∷ b'0' ∷ b'-' ∷ b'b' ∷ b'9' ∷ b'e' ∷ b'9' ∷ b'-' ∷ b'e' ∷ b'd' ∷ b'f'
    ∷ b'7' ∷ b'6' ∷ b'3' ∷ b'e' ∷ b'1' ∷ b'7' ∷ b'e' ∷ b'2' ∷ b'1' ∷ []
