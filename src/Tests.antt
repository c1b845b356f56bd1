-- ===== src/Tests.antt =====
-- Runs of the model on concrete inputs, and each theorem with a hypothesis at such an input.
mod Tuic
mod Hysteria2
mod Hysteria2Server
mod Shadowsocks
mod Vless
mod Anytls
mod Padding
mod Xhttp
mod XhttpServer
mod Vmess
mod Trojan
mod Socks
mod Reality
mod Wireguard
