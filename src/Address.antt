-- ===== src/Address.antt =====
-- inetSockAddr.h: the address of a peer or of the server. `htons` and `htonl`, which put numbers in
-- the byte order of the network, are parameters; so is the text that `inet_ntoa` gives.
use yeyj_tcp_server.Base.{ℕ, ◌%◌, ◌^◌, ◌≡◌, List}

-- The fields of a `sockaddr_in`: the family, the address, and the port, the last two in the byte order
-- of the network.
pub record InetSockAddr : Type 0 where
  pub sin_family : ℕ
  pub s_addr : ℕ
  pub sin_port : ℕ

-- The byte order of the host: turning a number to the order of the network and back.
pub record ByteOrder : Type 0 where
  pub htons : ℕ → ℕ
  pub ntohs : ℕ → ℕ
  pub htonl : ℕ → ℕ
  pub ntohs-htons : (n : ℕ) → ntohs (htons (n % 2 ^ 16)) ≡ n % 2 ^ 16

-- The constructor; the arguments of `htons` and `htonl` are cut to 16 and 32 bits.
unfoldable pub new_inet_sock_addr : ByteOrder → ℕ → ℕ → ℕ → InetSockAddr
new_inet_sock_addr order family addr port = record {
  sin_family = family;
  s_addr = order.htonl (addr % 2 ^ 32);
  sin_port = order.htons (port % 2 ^ 16);
}

unfoldable pub get_family : InetSockAddr → ℕ
get_family a = a.sin_family

unfoldable pub get_ip : InetSockAddr → ℕ
get_ip a = a.s_addr

unfoldable pub get_port : InetSockAddr → ℕ
get_port a = a.sin_port

-- `getIpAsString`, and `getIpAsChar`, with `inet_ntoa` as a parameter.
unfoldable pub get_ip_as_string : (ℕ → List ℕ) → InetSockAddr → List ℕ
unfolding get_ip
get_ip_as_string inet_ntoa a = inet_ntoa (get_ip a)

-- The port that was given comes back only through `ntohs`.
get_port_lem :
    (order : ByteOrder) (family addr port : ℕ)
    → order.ntohs (get_port (new_inet_sock_addr order family addr port)) ≡ port % 2 ^ 16
unfolding get_port new_inet_sock_addr
get_port_lem order family addr port = order.ntohs-htons port
