-- ===== src/Ipaddrd/Report.antt =====
-- One round of the main loop of IPADDRD/C/inet.c: the datagram that is sent, the room that it has in
-- memory, and the pause behind it.
-- The host name, the session UUID, zlib's crc32 and rand() are arguments.
pub mod Room
use vx_pbx.Base.{ℕ, ◌+◌, ◌*◌, ◌/◌, ◌%◌, ◌^◌, Bool, true, false, List, [], ◌∷◌, ◌++◌, Option}
use vx_pbx.Base.Tests.{ltb, bit, if◌then◌else◌}
use vx_pbx.Base.Lists.{length}
use vx_pbx.Ipaddrd.Frame.{Interface, Netns, Fp, frame_pos, buffer_size, le32, ipframe}

abbrev pub le16 : ℕ → List ℕ
le16 w = w % 256 ∷ w / 256 % 256 ∷ []

-- `frame_total`; a UUID has 16 bytes.
unfoldable pub frame_total : Fp → List ℕ → ℕ
frame_total fp hostname = frame_pos fp + length hostname + 1 + 16

-- The datagram without its checksum: the header, the packed addresses, the overflow flag, the host
-- name and the UUID.
unfoldable pub report_bytes : Fp → List ℕ → List ℕ → List ℕ
unfolding frame_total
report_bytes fp hostname uuid =
    le16 ((frame_total fp hostname + 4) % 2 ^ 16)
    ++ (le16 fp.ip_count ++ (fp.packed ++ (bit fp.overflow ∷ [] ++ (hostname ++ uuid))))

-- The bytes that `send_frame` is given.
unfoldable pub datagram : (List ℕ → ℕ) → Fp → List ℕ → List ℕ → List ℕ
unfolding report_bytes
datagram crc32 fp hostname uuid =
    let frame = report_bytes fp hostname uuid in frame ++ le32 (crc32 frame)

-- The size of the buffer once the frame is complete, from its size before: `realloc` where
-- `frame_total` is above 4096, with 8 bytes for the checksum as an `unsigned long`.
unfoldable pub room_for : Fp → List ℕ → ℕ → ℕ
unfolding frame_total
room_for fp hostname room =
    if ltb buffer_size (frame_total fp hostname) then frame_total fp hostname + 8 else room

-- `tv_sec` and `tv_nsec`.
pub record Pause : Type 0 where
  pub tv_sec : ℕ
  pub tv_nsec : ℕ

unfoldable pub pause : ℕ → ℕ → ℕ → Pause
pause delay_report delay_random rand =
    let delay_ns = delay_random * (rand % 1000000000) in
    record { tv_sec = delay_report + delay_ns / 1000000000; tv_nsec = delay_ns % 999999999 }
