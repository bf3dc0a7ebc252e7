-- ===== src/Ipaddrd/Collector.antt =====
-- What IPADDRD/GO/SRC/main.go reads of a datagram: `serve` up to the report file. `crc32` is Go's
-- ChecksumIEEE. `none` is an early return.
pub mod Received
use vx_pbx.Base.{
  ℕ, zero, suc, ◌+◌, ◌-◌, ◌*◌, ◌/◌, ◌%◌, Bool, not, ◌||◌, List, [], ◌∷◌, ◌++◌, Option, none, some,
}
use vx_pbx.Base.Tests.{ltb, leb, ◌==◌, if◌then◌else◌}
use vx_pbx.Base.Lists.{take, drop, length}

-- An address of the report: its flags, and its 4 or 16 bytes.
pub data Listed : Type 0 where
  ipv4 ipv6 : ℕ → List ℕ → Listed

pub record Report : Type 0 where
  pub addresses : List Listed
  pub overhead : Bool
  pub hostname : List ℕ
  pub frame_uuid : List ℕ

-- The little-endian number in these bytes.
unfoldable pub number : List ℕ → ℕ
number [] = 0
number (b ∷ bs) = b + 256 * number bs

-- `data[from : to]`
abbrev pub slice : ℕ → ℕ → List ℕ → List ℕ
slice from to data_bytes = take (to - from) (drop from data_bytes)

abbrev pub byte_at : List ℕ → ℕ
byte_at [] = 0
byte_at (b ∷ bs) = b

abbrev pub with_address : Listed → Option (List Listed × ℕ) → Option (List Listed × ℕ)
with_address a none = none
with_address a (some (more, end)) = some (a ∷ more, end)

-- The addresses from `pointer` on, of which `n` are left to read, and where they end.
unfoldable pub read_addresses : List ℕ → ℕ → ℕ → Option (List Listed × ℕ)
read_addresses frame zero pointer = some ([], pointer)
read_addresses frame (suc n) pointer =
    let head = byte_at (drop pointer frame) in
    let behind4 = read_addresses frame n (pointer + 5) in
    let behind6 = read_addresses frame n (pointer + 17) in
    if head % 2 == 0
    then (if leb (length frame) (pointer + 5 + 7)
        then none
        else with_address (ipv4 (head / 2) (slice (pointer + 1) (pointer + 5) frame)) behind4)
    else if leb (length frame) (pointer + 17 + 7)
    then none
    else with_address (ipv6 (head / 2) (slice (pointer + 1) (pointer + 17) frame)) behind6

-- `frame` has the length `buf_len` with which it was received, at least 24.
unfoldable pub serve : (List ℕ → ℕ) → List ℕ → Option Report
unfolding number read_addresses
serve crc32 frame =
    let len = length frame in
    let ip_count = number (slice 2 4 frame) in
    if not (number (slice 0 2 frame) == len)
    then none
    else if not (crc32 (take (len - 4) frame) == number (drop (len - 4) frame))
    then none
    else if ip_count == 0 || ltb 256 ip_count
    then none
    else (elim (read_addresses frame ip_count 4) [
      | none ↦ none
      | some (addresses, pointer) ↦
          let flag = byte_at (drop pointer frame) in
          if ltb 1 flag
          then none
          else some record {
            addresses = addresses;
            overhead = flag == 1;
            hostname = slice (pointer + 1) (len - 4 - 16) frame;
            frame_uuid = slice (len - 4 - 16) (len - 4) frame;
          }
    ])
