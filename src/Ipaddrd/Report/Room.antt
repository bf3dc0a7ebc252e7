-- ===== src/Ipaddrd/Report/Room.antt =====
-- The room that a report has in the buffer, and the pause between two reports.
use vx_pbx.Base.{ℕ, ◌+◌, ◌≤◌, ◌<◌, ◌≡◌, ◌⊎◌, List, [], ◌∷◌, ◌++◌, arith}
use vx_pbx.Base.Tests.{bit}
use vx_pbx.Base.Lists.{length, length-append}
use vx_pbx.Ipaddrd.Frame.{Fp, buffer_size}
use vx_pbx.Ipaddrd.Report.{frame_total, report_bytes, room_for, pause}

pub length-report_bytes :
    (fp : Fp) (hostname uuid : List ℕ)
    → length uuid ≡ 16
    → length (report_bytes fp hostname uuid) ≡ frame_total fp hostname
unfolding report_bytes frame_total
length-report_bytes fp hostname uuid u =
    let tail_bytes = bit fp.overflow ∷ [] ++ (hostname ++ uuid) in
    omega (arith, u, length-append fp.packed tail_bytes, length-append hostname uuid)

-- In a buffer of at least 4096 bytes, the bytes of a report with a UUID of 16 bytes and its 8-byte
-- checksum have room, unless the report has more than 4088 bytes and at most 4096.
pub room_for-report_bytes :
    (fp : Fp) (hostname uuid : List ℕ) (room : ℕ)
    → length uuid ≡ 16
    → buffer_size ≤ room
    → (length (report_bytes fp hostname uuid) + 8 ≤ room_for fp hostname room)
      ⊎ ((4088 < length (report_bytes fp hostname uuid))
          × (length (report_bytes fp hostname uuid) ≤ 4096))
unfolding room_for
room_for-report_bytes fp hostname uuid room u h =
    ground (arith, length-report_bytes fp hostname uuid u)

-- The pause that `nanosleep` is given is valid, with less than 10^9 nanoseconds, and it is at least
-- the reporting delay.
pause_valid :
    (delay_report delay_random rand : ℕ)
    → ((pause delay_report delay_random rand).tv_nsec < 1000000000)
      × (delay_report ≤ (pause delay_report delay_random rand).tv_sec)
unfolding pause
pause_valid delay_report delay_random rand = (omega arith, omega arith)
