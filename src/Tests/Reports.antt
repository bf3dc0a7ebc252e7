-- ===== src/Tests/Reports.antt =====
-- A report of two addresses, as it is collected, sent and read.
use vx_pbx.Base.{
  ℕ, ◌+◌, ◌%◌, ◌^◌, ◌≤◌, ◌<◌, ◌≡◌, ◌⊎◌, refl, ◌++◌, true, false, List, [], ◌∷◌, map, Option, some,
  arith,
}
use vx_pbx.Base.Lists.{length}
use vx_pbx.Base.Int.{pos, ◌≤ℤ◌}
use vx_pbx.Base.Cstr.{atoi}
use vx_pbx.Ipaddrd.Cli.{
  Settings, defaults, set_option, set_options, endpoint, port_of, host_of, token, behind_token,
  skip_colons, cli,
}
use vx_pbx.Ipaddrd.Cli.Accepted.{IsInRange, cli-IsInRange}
use vx_pbx.Ipaddrd.Frame.{
  Interface, inet, inet6, Packed, ipv4_frame, ipv6_frame, Fp, Netns, ipframe, packed_bytes,
}
use vx_pbx.Ipaddrd.Frame.Packs.{Packs, IsTagged, all_bytes}
use vx_pbx.Ipaddrd.Frame.Collects.{Collects, offered, new_frame, ipframe-Collects}
use vx_pbx.Ipaddrd.Report.{datagram, report_bytes, room_for}
use vx_pbx.Ipaddrd.Report.Room.{room_for-report_bytes}
use vx_pbx.Ipaddrd.Collector.{serve}
use vx_pbx.Ipaddrd.Collector.Received.{serve-datagram, listed}

abbrev interfaces : List Interface
interfaces =
    record { flags = 1; address = some (inet 127) }
    ∷ record { flags = 1; address = some (inet 3232235521) }
    ∷ record { flags = 0; address = some (inet6 1 2 3 4) }
    ∷ []

abbrev namespaces : Option (List Netns)
namespaces =
    some (record { is_regular = true; opens = true; enters = true; interfaces = interfaces } ∷ [])

ipframe-Collects_example :
    Collects [] (offered interfaces namespaces) (ipframe interfaces namespaces new_frame)
ipframe-Collects_example = ipframe-Collects interfaces namespaces

abbrev structs : List Packed
structs = ipv4_frame 14 3232235521 ∷ ipv6_frame 1 1 2 3 4 ∷ []

abbrev packed_frame : Fp
packed_frame = record { packed = all_bytes structs; ip_count = 2; overflow = false }

packed_frame-Packs : Packs structs packed_frame
unfolding all_bytes IsTagged packed_bytes
packed_frame-Packs = record {
  bytes = refl;
  counted = refl;
  tagged = ((omega arith, refl), ((omega arith, refl), tt));
  fits = omega arith;
}

abbrev uuid : List ℕ
uuid = 1 ∷ 2 ∷ 3 ∷ 4 ∷ 5 ∷ 6 ∷ 7 ∷ 8 ∷ 9 ∷ 10 ∷ 11 ∷ 12 ∷ 13 ∷ 14 ∷ 15 ∷ 16 ∷ []

-- A checksum that stands for zlib's: the number of bytes.
abbrev byte_count : List ℕ → ℕ
byte_count bytes = length bytes % 2 ^ 32

serve-datagram_example :
    serve byte_count (datagram byte_count packed_frame (b'h' ∷ []) uuid)
    ≡ some record {
      addresses = map listed structs;
      overhead = false;
      hostname = b'h' ∷ [];
      frame_uuid = uuid;
    }
serve-datagram_example =
    serve-datagram byte_count structs packed_frame (b'h' ∷ []) uuid (λ bytes. omega arith)
      packed_frame-Packs (omega arith) (omega arith) (omega arith) refl

room_for-report_bytes_example :
    (length (report_bytes packed_frame (b'h' ∷ []) uuid) + 8
      ≤ room_for packed_frame (b'h' ∷ []) 4096)
    ⊎ ((4088 < length (report_bytes packed_frame (b'h' ∷ []) uuid))
        × (length (report_bytes packed_frame (b'h' ∷ []) uuid) ≤ 4096))
room_for-report_bytes_example =
    room_for-report_bytes packed_frame (b'h' ∷ []) uuid 4096 refl (omega arith)

-- `-t 60`, and a host with a port.
abbrev options : List (ℕ × List ℕ)
options = (b't', b'6' ∷ b'0' ∷ []) ∷ []

abbrev host : List ℕ
host = b'a' ∷ b'.' ∷ b'b' ∷ []

abbrev port : List ℕ
port = b'5' ∷ b'3' ∷ []

abbrev settings : Settings
settings = record defaults { delay_report = 60 }

accepted :
    cli options ((host ++ b':' ∷ port) ∷ []) ≡ some (settings, record { host = host; port = port })
unfolding cli set_options set_option endpoint port_of host_of token behind_token skip_colons atoi
accepted = refl

cli-IsInRange_example : IsInRange settings × (pos 1 ≤ℤ atoi port) × (atoi port ≤ℤ pos 65535)
cli-IsInRange_example =
    cli-IsInRange options ((host ++ b':' ∷ port) ∷ []) settings record { host = host; port = port }
      accepted
