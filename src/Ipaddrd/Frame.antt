-- ===== src/Ipaddrd/Frame.antt =====
-- How IPADDRD/C/inet.c collects addresses into a frame: `ipaddr` for one network namespace and
-- `ipframe` for all of them, with the packed structs of IPADDRD/C/inet.h.
-- What getifaddrs, readdir, open and setns give is an argument. A 32-bit word stands as it does in
-- memory on the little-endian hosts that the code is written for.
pub mod Packs
pub mod Collects
use vx_pbx.Base.{
  ℕ, ◌+◌, ◌-◌, ◌*◌, ◌/◌, ◌%◌, ◌^◌, Bool, true, false, not, ◌&&◌, ◌||◌, List, [], ◌∷◌, ◌++◌, Option,
  none, some,
}
use vx_pbx.Base.Tests.{ltb, ◌==◌, if◌then◌else◌}
use vx_pbx.Base.Lists.{length}

-- `struct sockaddr`: the address words, and any family but these two.
pub data Address : Type 0 where
  inet : ℕ → Address
  inet6 : ℕ → ℕ → ℕ → ℕ → Address
  other : Address

-- `struct ifaddrs`
pub record Interface : Type 0 where
  pub flags : ℕ
  pub address : Option Address

-- `struct ipv4_frame` and `struct ipv6_frame`
pub data Packed : Type 0 where
  ipv4_frame : ℕ → ℕ → Packed
  ipv6_frame : ℕ → ℕ → ℕ → ℕ → ℕ → Packed

abbrev pub buffer_size : ℕ
buffer_size = 4096

abbrev pub le32 : ℕ → List ℕ
le32 w = w % 256 ∷ w / 256 % 256 ∷ w / 65536 % 256 ∷ w / 16777216 % 256 ∷ []

-- The bytes of a struct.
unfoldable pub packed_bytes : Packed → List ℕ
packed_bytes (ipv4_frame head ip) = head ∷ le32 ip
packed_bytes (ipv6_frame head a b c d) = head ∷ le32 a ++ (le32 b ++ (le32 c ++ le32 d))

-- `sizeof`
unfoldable pub size_of : Packed → ℕ
size_of (ipv4_frame _ _) = 5
size_of (ipv6_frame _ _ _ _ _) = 17

-- `flags & IFF_POINTOPOINT`, bit 4.
abbrev is_tunnel : ℕ → Bool
is_tunnel flags = flags / 16 % 2 == 1

-- `flags & MASK > 0`, where the comparison binds first.
abbrev flag_test : ℕ → ℕ → ℕ
flag_test flags mask = if ltb 0 mask then flags % 2 else 0

-- The head without its last bit; the bits that `|=` joins are disjoint.
unfoldable pub head_bits : ℕ → ℕ
head_bits flags = ((flag_test flags 1 * 2 + flag_test flags 2) * 2 + flag_test flags 256) * 2

abbrev is_loopback6 : ℕ → ℕ → ℕ → ℕ → Bool
is_loopback6 a b c d = a == 0 && b == 0 && c == 0 && d == 16777216

-- What an address adds to the frame, if anything.
unfoldable pub packed_at : ℕ → Address → Option Packed
unfolding head_bits
packed_at flags other = none
packed_at flags (inet ip) =
    if not (is_tunnel flags) && not (ip % 256 == 127)
    then some (ipv4_frame (head_bits flags) ip)
    else none
packed_at flags (inet6 a b c d) =
    if not (is_tunnel flags) && (not (is_loopback6 a b c d) && not (a == 33022))
    then some (ipv6_frame (head_bits flags + 1) a b c d)
    else none

unfoldable pub packed_of : Interface → Option Packed
unfolding packed_at
packed_of ifa = elim ifa.address [ none ↦ none | some address ↦ packed_at ifa.flags address ]

-- `struct _fp`: `packed` holds the bytes from frame + 4 up to frame_pos.
pub record Fp : Type 0 where
  pub packed : List ℕ
  pub ip_count : ℕ
  pub overflow : Bool

-- `frame_pos - frame`
abbrev pub frame_pos : Fp → ℕ
frame_pos fp = 4 + length fp.packed

abbrev pub add_packed : Packed → Fp → Fp
add_packed p fp = record fp {
  packed = fp.packed ++ packed_bytes p;
  ip_count = (fp.ip_count + 1) % 2 ^ 16;
}

-- The flag `overflow` is the result of the C function.
unfoldable pub ipaddr : List Interface → Fp → Fp
unfolding packed_of packed_bytes size_of
ipaddr [] fp = record fp { overflow = false }
ipaddr (ifa ∷ ifas) fp = elim (packed_of ifa) [
  | none ↦ ipaddr ifas fp
  | some p ↦
      if ltb (buffer_size - size_of p) (frame_pos fp)
      then record fp { overflow = true }
      else ipaddr ifas (add_packed p fp)
]

-- A file of /var/run/netns: its type, whether it opens, whether setns enters it, and the addresses
-- that are found there.
pub record Netns : Type 0 where
  pub is_regular : Bool
  pub opens : Bool
  pub enters : Bool
  pub interfaces : List Interface

unfoldable pub netns_loop : List Netns → Fp → Fp
unfolding ipaddr
netns_loop [] fp = record fp { overflow = false }
netns_loop (ns ∷ rest) fp =
    let there = ipaddr ns.interfaces fp in
    let skipped = netns_loop rest fp in
    let further = netns_loop rest there in
    if not (ns.is_regular && ns.opens && ns.enters)
    then skipped
    else if there.overflow
    then there
    else further

-- `none`: there is no directory of namespaces.
unfoldable pub ipframe : List Interface → Option (List Netns) → Fp → Fp
unfolding netns_loop
ipframe root namespaces fp =
    let fp' = ipaddr root fp in
    if fp'.overflow
    then fp'
    else (elim namespaces [ none ↦ record fp' { overflow = false } | some ns ↦ netns_loop ns fp' ])
