-- ===== src/Ipaddrd/Collector/Received.antt =====
-- The collector reads from a datagram what the daemon put into it.
use vx_pbx.Base.{
  ℕ, suc, ◌+◌, ◌-◌, ◌/◌, ◌%◌, ◌^◌, ◌≤◌, ◌<◌, ◌≡◌, refl, sym, ap, ◌∙◌, Bool, true, false, ◌||◌, List,
  [], ◌∷◌, ◌++◌, map, some, arith,
}
use mathlib.Core.List.{append_assoc}
use vx_pbx.Base.Tests.{ltb, leb, ◌==◌, bit}
use vx_pbx.Base.Lists.{length, take, drop, length-append, All}
use vx_pbx.Ipaddrd.Frame.{Packed, ipv4_frame, ipv6_frame, Fp, packed_bytes, le32}
use vx_pbx.Ipaddrd.Frame.Packs.{Packs, all_bytes, IsTagged}
use vx_pbx.Ipaddrd.Report.{le16, frame_total, report_bytes, datagram}
use vx_pbx.Ipaddrd.Report.Room.{length-report_bytes}
use vx_pbx.Ipaddrd.Collector.{Listed, ipv4, ipv6, number, slice, byte_at, read_addresses, serve}

module _ {ℓ} {A : Type ℓ} where
  drop-append : (pre xs : List A) → drop (length pre) (pre ++ xs) ≡ xs
  drop-append [] xs = refl
  drop-append (p ∷ pre) xs = drop-append pre xs

  take-append : (xs ys : List A) → take (length xs) (xs ++ ys) ≡ xs
  take-append [] ys = refl
  take-append (x ∷ xs) ys = ap (λ l. x ∷ l) (take-append xs ys)

-- A slice whose bounds are those of a part of the frame is that part.
slice_part :
    (from to : ℕ) (frame pre part post : List ℕ)
    → frame ≡ pre ++ (part ++ post)
    → from ≡ length pre
    → to ≡ length pre + length part
    → slice from to frame ≡ part
slice_part from to frame pre part post e f t =
    rw (e, f, t)
      (let n : length pre + length part - length pre ≡ length part = omega arith in
        rw (drop-append pre (part ++ post), n) (take-append part post))

read_ipv4 :
    (frame : List ℕ) (n pointer head end : ℕ) (bytes : List ℕ) (more : List Listed)
    → byte_at (drop pointer frame) ≡ head
    → head % 2 ≡ 0
    → pointer + 5 + 7 < length frame
    → slice (pointer + 1) (pointer + 5) frame ≡ bytes
    → read_addresses frame n (pointer + 5) ≡ some (more, end)
    → read_addresses frame (suc n) pointer ≡ some (ipv4 (head / 2) bytes ∷ more, end)
unfolding read_addresses
read_ipv4 frame n pointer head end bytes more h even room s r =
    let in_time : leb (length frame) (pointer + 5 + 7) ≡ false = ground arith in
    rw (h, even, in_time, s, r) refl

read_ipv6 :
    (frame : List ℕ) (n pointer head end : ℕ) (bytes : List ℕ) (more : List Listed)
    → byte_at (drop pointer frame) ≡ head
    → head % 2 ≡ 1
    → pointer + 17 + 7 < length frame
    → slice (pointer + 1) (pointer + 17) frame ≡ bytes
    → read_addresses frame n (pointer + 17) ≡ some (more, end)
    → read_addresses frame (suc n) pointer ≡ some (ipv6 (head / 2) bytes ∷ more, end)
unfolding read_addresses
read_ipv6 frame n pointer head end bytes more h odd room s r =
    let in_time : leb (length frame) (pointer + 17 + 7) ≡ false = ground arith in
    rw (h, odd, in_time, s, r) refl

-- How the collector lists a struct.
unfoldable pub listed : Packed → Listed
listed (ipv4_frame head ip) = ipv4 (head / 2) (le32 ip)
listed (ipv6_frame head a b c d) = ipv6 (head / 2) (le32 a ++ (le32 b ++ (le32 c ++ le32 d)))

read_addresses-All :
    (frame : List ℕ) (ps : List Packed) (pre post : List ℕ) (pointer : ℕ)
    → frame ≡ pre ++ (all_bytes ps ++ post)
    → pointer ≡ length pre
    → 8 ≤ length post
    → All IsTagged ps
    → read_addresses frame (length ps) pointer
      ≡ some (map listed ps, pointer + length (all_bytes ps))
unfolding read_addresses all_bytes packed_bytes listed IsTagged
read_addresses-All frame [] pre post pointer e at room t =
    let n : pointer + 0 ≡ pointer = omega arith in rw n refl
read_addresses-All frame (ipv4_frame head ip ∷ ps) pre post pointer e at room t =
    let this = packed_bytes (ipv4_frame head ip) in
    let e' : frame ≡ pre ++ this ++ (all_bytes ps ++ post) =
      e ∙ sym (append_assoc pre this (all_bytes ps ++ post)) in
    let l' = length-append pre this in
    let more =
      read_addresses-All frame ps (pre ++ this) post (pointer + 5) e' (omega (arith, at, l')) room
        t.1 in
    let whole = ap length e ∙ length-append pre (all_bytes (ipv4_frame head ip ∷ ps) ++ post) in
    let tail_length = length-append (all_bytes ps) post in
    let ends : pointer + 5 + length (all_bytes ps) ≡ pointer + length (this ++ all_bytes ps) =
      omega (arith, length-append this (all_bytes ps)) in
    let here : byte_at (drop pointer frame) ≡ head =
      rw (e, at) (ap byte_at (drop-append pre (all_bytes (ipv4_frame head ip ∷ ps) ++ post))) in
    let part : slice (pointer + 1) (pointer + 5) frame ≡ le32 ip =
      slice_part (pointer + 1) (pointer + 5) frame (pre ++ (head ∷ [])) (le32 ip)
        (all_bytes ps ++ post)
        (e ∙ sym (append_assoc pre (head ∷ []) ((le32 ip) ++ (all_bytes ps ++ post))))
        (omega (arith, at, length-append pre (head ∷ [])))
        (omega (arith, at, length-append pre (head ∷ []))) in
    read_ipv4 frame (length ps) pointer head (pointer + length (this ++ all_bytes ps)) (le32 ip)
      (map listed ps) here t.0.1 (omega (arith, whole, tail_length)) part (rw (sym ends) more)
read_addresses-All frame (ipv6_frame head a b c d ∷ ps) pre post pointer e at room t =
    let this = packed_bytes (ipv6_frame head a b c d) in
    let e' : frame ≡ pre ++ this ++ (all_bytes ps ++ post) =
      e ∙ sym (append_assoc pre this (all_bytes ps ++ post)) in
    let l' = length-append pre this in
    let more =
      read_addresses-All frame ps (pre ++ this) post (pointer + 17) e' (omega (arith, at, l')) room
        t.1 in
    let whole =
      ap length e ∙ length-append pre (all_bytes (ipv6_frame head a b c d ∷ ps) ++ post) in
    let tail_length = length-append (all_bytes ps) post in
    let ends : pointer + 17 + length (all_bytes ps) ≡ pointer + length (this ++ all_bytes ps) =
      omega (arith, length-append this (all_bytes ps)) in
    let here : byte_at (drop pointer frame) ≡ head =
      rw (e, at)
        (ap byte_at (drop-append pre (all_bytes (ipv6_frame head a b c d ∷ ps) ++ post))) in
    let part : slice (pointer + 1) (pointer + 17) frame ≡ le32 a ++ (le32 b ++ (le32 c ++ le32 d)) =
      slice_part (pointer + 1) (pointer + 17) frame (pre ++ (head ∷ []))
        (le32 a ++ (le32 b ++ (le32 c ++ le32 d))) (all_bytes ps ++ post)
        (e
          ∙ sym (
              append_assoc pre (head ∷ [])
                ((le32 a ++ (le32 b ++ (le32 c ++ le32 d))) ++ (all_bytes ps ++ post))))
        (omega (arith, at, length-append pre (head ∷ [])))
        (omega (arith, at, length-append pre (head ∷ []))) in
    read_ipv6 frame (length ps) pointer head (pointer + length (this ++ all_bytes ps))
      (le32 a ++ (le32 b ++ (le32 c ++ le32 d))) (map listed ps) here t.0.1
      (omega (arith, whole, tail_length)) part (rw (sym ends) more)

number-le16 : (w : ℕ) → w < 65536 → number (le16 w) ≡ w
unfolding number
number-le16 w h = omega arith

number-le32 : (w : ℕ) → w < 2 ^ 32 → number (le32 w) ≡ w
unfolding number
number-le32 w h = omega arith

-- The parts of the datagram, one behind the other.
datagram_parts :
    (crc32 : List ℕ → ℕ) (fp : Fp) (hostname uuid : List ℕ)
    → datagram crc32 fp hostname uuid
      ≡ (le16 ((frame_total fp hostname + 4) % 2 ^ 16) ++ le16 fp.ip_count)
        ++ (fp.packed
            ++ (bit fp.overflow
                ∷ (hostname ++ (uuid ++ le32 (crc32 (report_bytes fp hostname uuid))))))
unfolding datagram report_bytes
datagram_parts crc32 fp hostname uuid = simp append_assoc

total_lem :
    (fp : Fp) (hostname : List ℕ)
    → frame_total fp hostname ≡ 4 + length fp.packed + length hostname + 1 + 16
unfolding frame_total
total_lem fp hostname = refl

datagram_split :
    (crc32 : List ℕ → ℕ) (fp : Fp) (hostname uuid : List ℕ)
    → datagram crc32 fp hostname uuid
      ≡ report_bytes fp hostname uuid ++ le32 (crc32 (report_bytes fp hostname uuid))
unfolding datagram
datagram_split crc32 fp hostname uuid = refl

-- What `serve` returns, from what it reads at each step.
serve_reads :
    (crc32 : List ℕ → ℕ) (frame : List ℕ) (n pointer : ℕ) (addresses : List Listed) (flag : Bool)
    (hostname uuid : List ℕ)
    → number (slice 0 2 frame) ≡ length frame
    → crc32 (take (length frame - 4) frame) ≡ number (drop (length frame - 4) frame)
    → number (slice 2 4 frame) ≡ n
    → 0 < n
    → n ≤ 256
    → read_addresses frame n 4 ≡ some (addresses, pointer)
    → byte_at (drop pointer frame) ≡ bit flag
    → slice (pointer + 1) (length frame - 4 - 16) frame ≡ hostname
    → slice (length frame - 4 - 16) (length frame - 4) frame ≡ uuid
    → serve crc32 frame
      ≡ some
          record { addresses = addresses; overhead = flag; hostname = hostname; frame_uuid = uuid }
unfolding serve
serve_reads crc32 frame n pointer addresses flag hostname uuid sized checked counted some_ips few r
      f h u =
    let sized' : (number (slice 0 2 frame) == length frame) ≡ true = ground arith in
    let checked' : (crc32 (take (length frame - 4) frame) == number (drop (length frame - 4) frame))
        ≡ true =
      ground arith in
    let counted' : (n == 0 || ltb 256 n) ≡ false = ground arith in
    let flag' : ltb 1 (bit flag) ≡ false = ground arith in
    let flag'' : (bit flag == 1) ≡ flag = ground arith in
    rw (sized', checked', counted, counted', r, f, flag', flag'', h, u) refl

-- From a datagram with 1 to 256 addresses the collector reads every address in the frame, in order,
-- with the head's flags, and the overflow flag, the host name and the UUID, whatever function
-- computes the checksum, as long as both sides compute the same 32-bit one.
pub serve-datagram :
    (crc32 : List ℕ → ℕ) (ps : List Packed) (fp : Fp) (hostname uuid : List ℕ)
    → ((bytes : List ℕ) → crc32 bytes < 2 ^ 32)
    → Packs ps fp
    → 0 < length ps
    → length ps ≤ 256
    → length hostname ≤ 64
    → length uuid ≡ 16
    → serve crc32 (datagram crc32 fp hostname uuid)
      ≡ some record {
        addresses = map listed ps;
        overhead = fp.overflow;
        hostname = hostname;
        frame_uuid = uuid;
      }
serve-datagram crc32 ps fp hostname uuid small v some_ips few short u =
    let frame = datagram crc32 fp hostname uuid in
    let body = report_bytes fp hostname uuid in
    let sum = crc32 body in
    let header = le16 ((frame_total fp hostname + 4) % 2 ^ 16) ++ le16 fp.ip_count in
    let post = bit fp.overflow ∷ (hostname ++ (uuid ++ le32 sum)) in
    let e = datagram_parts crc32 fp hostname uuid in
    let packed_size = ap length v.bytes in
    let len_body = length-report_bytes fp hostname uuid u in
    let total = total_lem fp hostname in
    let split = datagram_split crc32 fp hostname uuid in
    let len = ap length split ∙ length-append body (le32 sum) in
    let cut : length frame - 4 ≡ length body = omega (arith, len) in
    let len_tail = length-append hostname (uuid ++ le32 sum) in
    let len_uuid = length-append uuid (le32 sum) in
    let e2 : frame ≡ header ++ (all_bytes ps ++ post) =
      e ∙ ap (λ l. header ++ (l ++ post)) v.bytes in
    let e3 = e ∙ sym (append_assoc header fp.packed post) in
    let len3 = length-append header fp.packed in
    let e4 =
      e3
      ∙ sym (
          append_assoc (header ++ fp.packed) (bit fp.overflow ∷ [])
            (hostname ++ (uuid ++ le32 sum))) in
    let len4 = length-append (header ++ fp.packed) (bit fp.overflow ∷ []) in
    let e5 =
      e4
      ∙ sym (
          append_assoc (header ++ fp.packed ++ (bit fp.overflow ∷ [])) hostname
            (uuid ++ le32 sum)) in
    let len5 = length-append (header ++ fp.packed ++ (bit fp.overflow ∷ [])) hostname in
    let pointer : 4 + length (all_bytes ps) ≡ length (header ++ fp.packed) =
      omega (arith, len3, packed_size) in
    serve_reads crc32 frame (length ps) (4 + length (all_bytes ps)) (map listed ps) fp.overflow
      hostname uuid
      (ap (λ l. number (slice 0 2 l)) e
        ∙ number-le16 ((frame_total fp hostname + 4) % 2 ^ 16) (omega arith)
        ∙ omega (arith, total, v.fits, short, len, len_body))
      (rw cut (
        rw split (
          rw (take-append body (le32 sum), drop-append body (le32 sum))
            (sym (number-le32 sum (small body))))))
      (ap (λ l. number (slice 2 4 l)) e
        ∙ number-le16 fp.ip_count (omega (arith, v.counted, few))
        ∙ v.counted)
      some_ips few
      (read_addresses-All frame ps header post 4 e2 refl (omega (arith, len_tail, len_uuid, u))
        v.tagged)
      (rw (pointer, e3) (ap byte_at (drop-append (header ++ fp.packed) post)))
      (slice_part _ _ frame (header ++ fp.packed ++ (bit fp.overflow ∷ [])) hostname
        (uuid ++ le32 sum) e4 (omega (arith, pointer, len4))
        (omega (arith, pointer, len4, len, len_body, total, len3, u)))
      (slice_part _ _ frame (header ++ fp.packed ++ (bit fp.overflow ∷ []) ++ hostname) uuid
        (le32 sum) e5 (omega (arith, len4, len5, len, len_body, total, len3, u))
        (omega (arith, len4, len5, len, len_body, total, len3, u)))
