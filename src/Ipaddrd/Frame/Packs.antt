-- ===== src/Ipaddrd/Frame/Packs.antt =====
-- The structs that stand in a frame, and what adding one does.
use vx_pbx.Base.{
  ℕ, ◌+◌, ◌*◌, ◌-◌, ◌%◌, ◌≤◌, ◌<◌, ◌≡◌, refl, ap, List, [], ◌∷◌, ◌++◌, Option, none, some, arith,
}
use mathlib.Core.List.{append_assoc, append-nil}
use vx_pbx.Base.Tests.{if_keeps}
use vx_pbx.Base.Lists.{length, length-append, All}
use vx_pbx.Ipaddrd.Frame.{
  Packed, ipv4_frame, ipv6_frame, Interface, Address, inet, inet6, other, Fp, packed_of, packed_at,
  add_packed, packed_bytes, size_of, head_bits, frame_pos, buffer_size,
}

-- The bytes of several structs, one behind the other.
unfoldable pub all_bytes : List Packed → List ℕ
all_bytes [] = []
all_bytes (p ∷ ps) = packed_bytes p ++ all_bytes ps

-- The last bit of the head tells an IPv6 struct from an IPv4 struct.
unfoldable pub IsTagged : Packed → Type 0
IsTagged (ipv4_frame head ip) = (head < 256) × (head % 2 ≡ 0)
IsTagged (ipv6_frame head a b c d) = (head < 256) × (head % 2 ≡ 1)

-- The frame holds exactly the structs `ps`, counts them, and has not outgrown the buffer.
pub record Packs (ps : List Packed) (fp : Fp) : Type 0 where
  pub bytes : fp.packed ≡ all_bytes ps
  pub counted : fp.ip_count ≡ length ps
  pub tagged : All IsTagged ps
  pub fits : frame_pos fp ≤ buffer_size

length-packed_bytes : (p : Packed) → length (packed_bytes p) ≡ size_of p
unfolding packed_bytes size_of
length-packed_bytes (ipv4_frame head ip) = refl
length-packed_bytes (ipv6_frame head a b c d) = refl

size_of-bounds : (p : Packed) → (5 ≤ size_of p) × (size_of p ≤ 17)
unfolding size_of
size_of-bounds (ipv4_frame head ip) = (omega arith, omega arith)
size_of-bounds (ipv6_frame head a b c d) = (omega arith, omega arith)

pub all_bytes-append : (ps qs : List Packed) → all_bytes (ps ++ qs) ≡ all_bytes ps ++ all_bytes qs
unfolding all_bytes
all_bytes-append [] qs = refl
all_bytes-append (p ∷ ps) qs = simp (all_bytes-append ps qs, append_assoc)

-- Every struct has at least 5 bytes.
pub length-all_bytes : (ps : List Packed) → 5 * length ps ≤ length (all_bytes ps)
unfolding all_bytes
length-all_bytes [] = omega arith
length-all_bytes (p ∷ ps) = omega (
  arith,
  length-append (packed_bytes p) (all_bytes ps),
  length-packed_bytes p,
  (size_of-bounds p).0,
  length-all_bytes ps,
)

All-append : (ps qs : List Packed) → All IsTagged ps → All IsTagged qs → All IsTagged (ps ++ qs)
All-append [] qs h k = k
All-append (p ∷ ps) qs h k = (h.0, All-append ps qs h.1 k)

abbrev pub WhenSome : (Packed → Type 0) → Option Packed → Type 0
WhenSome P none = Unit
WhenSome P (some p) = P p

head_bits-lem : (flags : ℕ) → (head_bits flags < 255) × (head_bits flags % 2 ≡ 0)
unfolding head_bits
head_bits-lem flags = (omega arith, omega arith)

packed_at-IsTagged : (flags : ℕ) (a : Address) → WhenSome IsTagged (packed_at flags a)
unfolding packed_at head_bits IsTagged
packed_at-IsTagged flags other = tt
packed_at-IsTagged flags (inet ip) =
    let h = head_bits-lem flags in
    if_keeps (WhenSome IsTagged) _ (some (ipv4_frame (head_bits flags) ip)) none (omega arith, h.1)
      tt
packed_at-IsTagged flags (inet6 a b c d) =
    let h = head_bits-lem flags in
    if_keeps (WhenSome IsTagged) _ (some (ipv6_frame (head_bits flags + 1) a b c d)) none
      (omega arith, omega arith) tt

pub packed_of-IsTagged : (ifa : Interface) → WhenSome IsTagged (packed_of ifa)
unfolding packed_of
packed_of-IsTagged ifa =
    elim ifa.address
      as (λ o.
        WhenSome IsTagged (elim o [ none ↦ none | some address ↦ packed_at ifa.flags address ])) [
          | none ↦ tt
          | some a ↦ packed_at-IsTagged ifa.flags a
        ]

pub add_packed-Packs :
    (ps : List Packed) (p : Packed) (fp : Fp)
    → Packs ps fp
    → IsTagged p
    → frame_pos fp ≤ buffer_size - size_of p
    → Packs (ps ++ (p ∷ [])) (add_packed p fp)
unfolding all_bytes
add_packed-Packs ps p fp v t room = record {
  bytes = simp (v.bytes, all_bytes-append ps (p ∷ []), append-nil (packed_bytes p));
  counted =
      omega (
        arith,
        v.counted,
        length-append ps (p ∷ []),
        ap length v.bytes,
        length-all_bytes ps,
        v.fits,
      );
  tagged = All-append ps (p ∷ []) v.tagged (t, tt);
  fits = omega (
    arith,
    room,
    size_of-bounds p,
    length-packed_bytes p,
    length-append fp.packed (packed_bytes p),
  );
}
