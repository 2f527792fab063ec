-- ===== src/Sockets.antt =====
-- hw1/main.cpp and hw1/hw1_utils.h: the list of network connections with their processes.
pub mod Parse
pub mod Owners
pub mod Listing
pub mod Program
mod Tests
use advanced_unix_progr.Base.{ℕ, ℤ, Text}

-- The text of a port: `*`, or a number as `%d` prints it. `unset` is memory that was never written.
pub data Port : Type 0 where
  star : Port
  decimal : ℤ → Port
  unset : Text → Port

-- `struct connection_entry`
pub record Entry : Type 0 where
  pub ip_proto : Text
  pub local_addr : Text
  pub local_port : Port
  pub remote_addr : Text
  pub remote_port : Port
  pub pid : ℤ
  pub inode : ℤ

-- What the local variables of one call of `parse_addr_port_pair` hold at first: an IPv4 address, an
-- IPv6 address as a little-endian number, and a `long`.
pub record RawPair : Type 0 where
  pub addr : ℕ
  pub addr6 : ℕ
  pub port : ℕ

-- What the stack holds where a line is parsed.
pub record Raw : Type 0 where
  pub entry : Entry
  pub own_pair : RawPair
  pub peer_pair : RawPair

-- The text of an address: `inet_ntop`, on the bytes as a little-endian number.
pub record Ntop : Type 0 where
  pub inet : ℕ → Text
  pub inet6 : ℕ → Text
