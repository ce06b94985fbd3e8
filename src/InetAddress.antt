-- ===== src/InetAddress.antt =====
-- src/InetAddress.h and src/InetAddress.cc: addresses of internet sockets.
pub mod Printing
use moduo.Prelude.{
  ℕ, ◌+◌, ◌<◌, Bool, List, ◌∷◌, replicate, length, Outcome, ok, undefined, ltb, if◌then◌else◌, Text,
  c_string, store,
}

-- The functions of the C library on addresses, a parameter. `print` is the `%u` of `sprintf`;
-- `inet_ntop` gives the text of an address, which is stored if it fits the buffer.
pub record Net : Type 0 where
  pub htons : ℕ → ℕ
  pub ntohs : ℕ → ℕ
  pub inet_addr : Text → ℕ
  pub inet_ntop : ℕ → Text
  pub print : ℕ → Text

-- `sockaddr_in`.
pub record InetAddress : Type 0 where
  pub sin_family : ℕ
  pub sin_port : ℕ
  pub sin_addr : ℕ

abbrev pub af_inet : ℕ
af_inet = 2

unfoldable pub new : Net → (port : ℕ) (ip : Text) → InetAddress
new net port ip = record {
  sin_family = af_inet;
  sin_port = net.htons port;
  sin_addr = net.inet_addr ip;
}

-- An address is its `sockaddr_in`.
abbrev pub set_sock_addr : InetAddress → InetAddress → InetAddress
set_sock_addr addr a = addr

-- `char buf[64] = {0}`, filled by `inet_ntop`.
unfoldable pub ip_buffer : Net → InetAddress → List ℕ
ip_buffer net a =
    let zeros = replicate 64 0 in
    let text = net.inet_ntop a.sin_addr in
    if ltb (length text) 64 then store 0 text zeros else zeros

unfoldable pub to_ip : Net → InetAddress → Text
unfolding ip_buffer
to_ip net a = c_string (ip_buffer net a)

unfoldable pub to_port : Net → InetAddress → ℕ
to_port net a = net.ntohs a.sin_port

-- `sprintf` writes on where the address ends, whatever the size of the buffer.
unfoldable pub to_ip_port : Net → InetAddress → Outcome Text
unfolding ip_buffer
to_ip_port net a =
    let buf = ip_buffer net a in
    let end = length (c_string buf) in
    let port = 58 ∷ net.print (net.ntohs a.sin_port) in
    if ltb (end + length port) 64 then ok (c_string (store end port buf)) else undefined
