-- ===== src/Xhttp.antt =====
-- src/common/transport/xhttp.rs: the XHTTP transport.
pub mod Stream
pub mod Path
pub mod Server
pub mod Down
