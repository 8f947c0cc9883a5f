-- ===== src/Net/SocketAddr.antt =====
-- net/SocketAddr.h: an address, in the fields of `sockaddr_in`.
-- The functions of the C library on addresses are parameters, and so is `std::stoi`.
pub mod RoundTrip
use yedis.Prelude.{
  ℕ, zero, suc, ◌+◌, ◌-◌, ◌%◌, ◌^◌, Bool, true, false, Option, none, some, [], ◌∷◌, ◌++◌, Bytes,
  codes, take, drop, find_first_of, ◌==◌, ◌&&◌, not, if◌then◌else◌,
}
use yedis.Prelude.Int.{ℤ, pos, negsuc}
use yedis.Decimal.{print_nat}

-- `stoi` is `none` where it throws an exception.
pub record Inet : Type 0 where
  pub af_inet : ℕ
  pub inet_addr : Bytes → ℕ
  pub inet_ntop : ℕ → Bytes
  pub htons : ℕ → ℕ
  pub ntohs : ℕ → ℕ
  pub stoi : Bytes → Option ℤ

pub record SocketAddr : Type 0 where
  pub sin_family : ℕ
  pub s_addr : ℕ
  pub sin_port : ℕ

-- `Clear()`
abbrev pub clear : SocketAddr
clear = record { sin_family = 0; s_addr = 0; sin_port = 0 }

-- `static_cast<uint16_t>`
abbrev pub to_u16 : ℤ → ℕ
to_u16 (pos n) = n % 2 ^ 16
to_u16 (negsuc n) = 2 ^ 16 - 1 - n % 2 ^ 16

-- `Init(uint32_t, uint16_t)`: the address goes to the family, which has 16 bits.
unfoldable pub init_net : ℕ → ℕ → SocketAddr → SocketAddr
init_net net_ip net_port a = record a { sin_family = net_ip % 2 ^ 16; sin_port = net_port }

-- `Empty()`
unfoldable pub is_empty : SocketAddr → Bool
is_empty a = a.sin_family == 0

unfoldable pub same_addr : SocketAddr → SocketAddr → Bool
same_addr a b = a.sin_family == b.sin_family && a.s_addr == b.s_addr && a.sin_port == b.sin_port

unfoldable pub other_addr : SocketAddr → SocketAddr → Bool
unfolding same_addr
other_addr a b = not (same_addr a b)

-- The texts before and behind the first colon. Without one, `p + 1` is 0 and each is the whole text.
abbrev pub split : Option ℕ → Bytes → Bytes × Bytes
split none text = (text, text)
split (some p) text = (take p text, drop (p + 1) text)

module _ (inet : Inet) where
  -- `Init(const char*, uint16_t)`
  unfoldable pub init_host : Bytes → ℕ → SocketAddr
  init_host ip port = record {
    sin_family = inet.af_inet;
    s_addr = inet.inet_addr ip;
    sin_port = inet.htons port;
  }

  abbrev with_port : Bytes → Option ℤ → Option SocketAddr
  with_port ip none = none
  with_port ip (some z) = some (init_host ip (to_u16 z))

  -- `SocketAddr(const std::string&)`; `none` is the exception of `stoi`.
  unfoldable pub parse_addr : Bytes → Option SocketAddr
  unfolding init_host
  parse_addr text =
      let parts = split (find_first_of b':' text) text in with_port parts.0 (inet.stoi parts.1)

  unfoldable pub get_port : SocketAddr → ℕ
  get_port a = inet.ntohs a.sin_port

  unfoldable pub get_ip : SocketAddr → Bytes
  get_ip a = inet.inet_ntop a.s_addr

  unfoldable pub to_string : SocketAddr → Bytes
  to_string a = inet.inet_ntop a.s_addr ++ codes ":" ++ print_nat (inet.ntohs a.sin_port)
