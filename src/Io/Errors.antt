-- ===== src/Io/Errors.antt =====
-- The errors, one constructor for each message of src/ that the model can return.
pub data Fault : Type 0 where
  unexpected_eof invalid_utf8 parse_int invalid_addr : Fault
  unknown_address_type unsupported_version unexpected_cmd unknown_command : Fault
  invalid_uuid invalid_uuid_hex unsupported_command empty_domain : Fault
  varint_no_data varint_truncated frame_too_short invalid_addr_len addr_truncated : Fault
  bad_auth invalid_password only_tcp_supported bad_atyp : Fault
  timestamp_skew header_too_short wrong_stream_type truncated missing_padding_length : Fault
  truncated_padding key_length_mismatch domain_too_long aead_encrypt_failed : Fault
  aead_decrypt_failed bad_base64 : Fault
  header_len_range udp_not_supported missing_fnv fnv_mismatch unsupported_security : Fault
  chunk_too_small auth_id_checksum auth_id_stale : Fault
  not_sequence der_incomplete not_bit_string der_bounds der_bad_length : Fault
  -- An index or a slice out of range: the task of the connection ends with a panic.
  index_out_of_range : Fault
  -- The target does not answer.
  connect_failed : Fault
  -- Reality.
  record_too_short not_handshake not_client_hello bad_session_id_len hello_truncated : Fault
  extension_bounds no_key_share key_share_short key_share_bounds no_x25519 bad_private_key : Fault
  hkdf_failed not_reality bad_short_id short_id_mismatch bad_spki not_certified forwarded : Fault
  -- The handshake of SOCKS.
  no_acceptable_auth authentication_failed : Fault
