-- ===== src/Ipaddrd/Frame/Collects.antt =====
-- What `ipaddr` and `ipframe` collect of what the interfaces offer.
use vx_pbx.Base.{
  ◌-◌, ◌<◌, ◌≡◌, refl, sym, subst, ap, ◌∙◌, Bool, true, false, not, ◌&&◌, List, [], ◌∷◌, ◌++◌,
  Option, none, some, arith, inl, inr,
}
use mathlib.Core.List.{append_assoc, append-nil}
use mathlib.Core.Bool.{true≢false}
use vx_pbx.Base.Tests.{if◌then◌else◌, ltb, Bool-cases}
use vx_pbx.Ipaddrd.Frame.{
  Packed, Interface, Fp, Netns, packed_of, add_packed, size_of, frame_pos, buffer_size, ipaddr,
  netns_loop, ipframe,
}
use vx_pbx.Ipaddrd.Frame.Packs.{
  Packs, all_bytes, IsTagged, WhenSome, add_packed-Packs, packed_of-IsTagged,
}

-- What the interfaces of one or several namespaces offer for the frame, in order.
unfoldable pub wanted : List Interface → List Packed
wanted [] = []
wanted (ifa ∷ ifas) = elim (packed_of ifa) [ none ↦ wanted ifas | some p ↦ p ∷ wanted ifas ]

-- The structs `taken` of those offered are in the frame, behind `ps`; where one is left, the flag is
-- set and the first of those left has no room in the buffer.
unfoldable pub Rest : List Packed → Fp → Type 0
Rest [] fp = fp.overflow ≡ false
Rest (p ∷ left) fp = (fp.overflow ≡ true) × (buffer_size - size_of p < frame_pos fp)

pub record Collects (ps offered : List Packed) (fp : Fp) : Type 0 where
  pub taken : List Packed
  pub left : List Packed
  pub split : taken ++ left ≡ offered
  pub packs : Packs (ps ++ taken) fp
  pub rest : Rest left fp

-- The next struct of those offered, once it has been taken.
then_Collects :
    (ps offered : List Packed) (p : Packed) (fp : Fp)
    → Collects (ps ++ (p ∷ [])) offered fp
    → Collects ps (p ∷ offered) fp
then_Collects ps offered p fp c = record {
  taken = p ∷ c.taken;
  left = c.left;
  split = ap (λ l. p ∷ l) c.split;
  packs = subst (λ l. Packs l fp) (append_assoc ps (p ∷ []) c.taken) c.packs;
  rest = c.rest;
}

-- Nothing more is taken: `left` is all that is offered.
ends_Collects :
    (ps left : List Packed) (fp : Fp) (flag : Bool)
    → Packs ps fp
    → Rest left (record fp { overflow = flag })
    → Collects ps left (record fp { overflow = flag })
ends_Collects ps left fp flag v r = record {
  taken = [];
  left = left;
  split = refl;
  packs =
      subst (λ l. Packs l (record fp { overflow = flag })) (sym (append-nil ps))
        (record { bytes = v.bytes; counted = v.counted; tagged = v.tagged; fits = v.fits });
  rest = r;
}

-- `ipaddr` packs what the interfaces offer, in order, up to the first struct without room.
pub ipaddr-Collects :
    (ifas : List Interface) (ps : List Packed) (fp : Fp)
    → Packs ps fp
    → Collects ps (wanted ifas) (ipaddr ifas fp)
unfolding ipaddr wanted Rest
ipaddr-Collects [] ps fp v = ends_Collects ps [] fp false v refl
ipaddr-Collects (ifa ∷ ifas) ps fp v =
    elim (packed_of ifa)
        as (λ o.
          WhenSome IsTagged o
          → Collects ps (elim o [ none ↦ wanted ifas | some p ↦ p ∷ wanted ifas ])
              (elim o [
                | none ↦ ipaddr ifas fp
                | some p ↦
                    if ltb (buffer_size - size_of p) (frame_pos fp)
                    then record fp { overflow = true }
                    else ipaddr ifas (add_packed p fp)
              ])) [
                | none ↦ λ _. ipaddr-Collects ifas ps fp v
                | some p ↦ λ t.
                    elim (Bool-cases (ltb (buffer_size - size_of p) (frame_pos fp)))
                      as (λ _. Collects ps (p ∷ wanted ifas) (
                        if ltb (buffer_size - size_of p) (frame_pos fp)
                        then record fp { overflow = true }
                        else ipaddr ifas (add_packed p fp))) [
                          | inl no_room ↦
                              rw no_room
                                (ends_Collects ps (p ∷ wanted ifas) fp true v (refl, ground arith))
                          | inr room ↦ rw room (
                              then_Collects ps (wanted ifas) p (ipaddr ifas (add_packed p fp)) (
                                ipaddr-Collects ifas (ps ++ (p ∷ [])) (add_packed p fp)
                                  (add_packed-Packs ps p fp v t (ground arith))))
                        ]
              ]
      (packed_of-IsTagged ifa)

Rest-append :
    (left more : List Packed) (fp : Fp) → fp.overflow ≡ true → Rest left fp → Rest (left ++ more) fp
unfolding Rest
Rest-append [] more fp full r = absurd (true≢false (sym full ∙ r))
Rest-append (p ∷ left) more fp full r = r

Rest-empty : (left : List Packed) (fp : Fp) → fp.overflow ≡ false → Rest left fp → left ≡ []
unfolding Rest
Rest-empty [] fp room r = refl
Rest-empty (p ∷ left) fp room r = absurd (true≢false (sym r.0 ∙ room))

stays_Collects :
    (ps offered more : List Packed) (fp : Fp)
    → fp.overflow ≡ true
    → Collects ps offered fp
    → Collects ps (offered ++ more) fp
stays_Collects ps offered more fp full c = record {
  taken = c.taken;
  left = c.left ++ more;
  split = sym (append_assoc c.taken c.left more) ∙ ap (λ l. l ++ more) c.split;
  packs = c.packs;
  rest = Rest-append c.left more fp full c.rest;
}

-- All that was offered has been taken, so the next offer continues.
continues_Collects :
    (ps offered more : List Packed) (fp fp' : Fp)
    → fp.overflow ≡ false
    → Collects ps offered fp
    → (Packs (ps ++ offered) fp → Collects (ps ++ offered) more fp')
    → Collects ps (offered ++ more) fp'
continues_Collects ps offered more fp fp' room c next =
    let none_left = Rest-empty c.left fp room c.rest in
    let all_taken : c.taken ≡ offered =
      sym (append-nil c.taken) ∙ sym (ap (λ l. c.taken ++ l) none_left) ∙ c.split in
    let d = next (subst (λ l. Packs (ps ++ l) fp) all_taken c.packs) in
    record {
      taken = offered ++ d.taken;
      left = d.left;
      split = append_assoc offered d.taken d.left ∙ ap (λ l. offered ++ l) d.split;
      packs = subst (λ l. Packs l fp') (append_assoc ps offered d.taken) d.packs;
      rest = d.rest;
    }

-- What the namespaces that are entered offer.
unfoldable pub wanted_in : List Netns → List Packed
wanted_in [] = []
wanted_in (ns ∷ rest) =
    let more = wanted_in rest in
    if not (ns.is_regular && ns.opens && ns.enters) then more else wanted ns.interfaces ++ more

netns_loop-Collects :
    (namespaces : List Netns) (ps : List Packed) (fp : Fp)
    → Packs ps fp
    → Collects ps (wanted_in namespaces) (netns_loop namespaces fp)
unfolding netns_loop wanted_in Rest
netns_loop-Collects [] ps fp v = ends_Collects ps [] fp false v refl
netns_loop-Collects (ns ∷ rest) ps fp v =
    let there = ipaddr-Collects ns.interfaces ps fp v in
    let shut = not (ns.is_regular && ns.opens && ns.enters) in
    let fp' = ipaddr ns.interfaces fp in
    elim (Bool-cases shut)
      as (λ _.
        Collects ps (if shut then wanted_in rest else wanted ns.interfaces ++ wanted_in rest) (
          if shut then netns_loop rest fp else if fp'.overflow then fp' else netns_loop rest fp')) [
            | inl closed ↦ rw closed (netns_loop-Collects rest ps fp v)
            | inr opened ↦
                rw opened
                  (elim (Bool-cases fp'.overflow)
                    as (λ _.
                      Collects ps (wanted ns.interfaces ++ wanted_in rest)
                        (if fp'.overflow then fp' else netns_loop rest fp')) [
                          | inl full ↦ rw full (
                              stays_Collects ps (wanted ns.interfaces) (wanted_in rest) fp' full
                                there)
                          | inr room ↦ rw room (
                              continues_Collects ps (wanted ns.interfaces) (wanted_in rest) fp'
                                (netns_loop rest fp') room there
                                (netns_loop-Collects rest (ps ++ wanted ns.interfaces) fp'))
                        ])
          ]

unfoldable pub offered : List Interface → Option (List Netns) → List Packed
offered root none = wanted root
offered root (some namespaces) = wanted root ++ wanted_in namespaces

-- The frame as the main loop passes it to `ipframe`.
abbrev pub new_frame : Fp
new_frame = record { packed = []; ip_count = 0; overflow = false }

new_frame-Packs : Packs [] new_frame
unfolding all_bytes
new_frame-Packs = record { bytes = refl; counted = refl; tagged = tt; fits = omega arith }

-- `ipframe` puts into the frame what the root namespace and then the entered namespaces offer, in
-- order and without gaps, and counts it; the frame stays within its 4096 bytes. Where something is
-- left out the overflow flag is set, and the first struct left out has no room; the flag is not set
-- where nothing is left out.
pub ipframe-Collects :
    (root : List Interface) (namespaces : Option (List Netns))
    → Collects [] (offered root namespaces) (ipframe root namespaces new_frame)
unfolding ipframe offered Rest
ipframe-Collects root none =
    let there = ipaddr-Collects root [] new_frame new_frame-Packs in
    let fp = ipaddr root new_frame in
    let fp' = record fp { overflow = false } in
    elim (Bool-cases fp.overflow)
      as (λ _. Collects [] (wanted root) (if fp.overflow then fp else fp')) [
        | inl full ↦ rw full there
        | inr room ↦ rw room (
            subst (λ l. Collects [] l fp') (append-nil (wanted root))
              (continues_Collects [] (wanted root) [] fp fp' room there
                (λ v. ends_Collects (wanted root) [] fp false v refl)))
      ]
ipframe-Collects root (some ns) =
    let there = ipaddr-Collects root [] new_frame new_frame-Packs in
    let fp = ipaddr root new_frame in
    let fp' = netns_loop ns fp in
    elim (Bool-cases fp.overflow)
      as (λ _. Collects [] (wanted root ++ wanted_in ns) (if fp.overflow then fp else fp')) [
        | inl full ↦ rw full (stays_Collects [] (wanted root) (wanted_in ns) fp full there)
        | inr room ↦ rw room (
            continues_Collects [] (wanted root) (wanted_in ns) fp fp' room there
              (netns_loop-Collects ns (wanted root) fp))
      ]
