-- ===== src/Queue/Realtime/Present.antt =====
-- The member of a record of the database, once the record has been read.
use vx_pbx.Base.{
  ℕ, ◌≡◌, refl, ◌∙◌, subst, Bool, true, not, ◌&&◌, List, [], ◌∷◌, ◌++◌, Option, none, some, arith,
  inl, inr,
}
use vx_pbx.Base.Tests.{Bool-cases, Option-cases}
use vx_pbx.Base.Lists.{any, All}
use vx_pbx.Queue.Types.{Text, Member, CallQueue}
use vx_pbx.Queue.Name.{same_name, same_name_refl, same_name_sym, same_name_trans}
use vx_pbx.Queue.Roster.{member_add_to_queue}
use vx_pbx.Queue.Reload.{Words, create_queue_member}
use vx_pbx.Queue.Realtime.{
  RtRecord, text_of, rt_update, rt_find, rt_created, rt_found, rt_handle_member_record,
  rt_handle_all,
}
use vx_pbx.Queue.Realtime.Steps.{Takes, Step, passed, updated, added, handle-Step, rt_find_at}

-- A member of that id who is not to be taken out.
abbrev pub has_id : Text → Member → Bool
has_id u m = not m.dead && same_name m.rt_uniqueid u

abbrev pub Present : Text → List Member → Type 0
Present u ms = any (has_id u) ms ≡ true

any-middle :
    (p : Member → Bool) (pre : List Member) (m n : Member) (post : List Member)
    → (p m ≡ true → p n ≡ true)
    → any p (pre ++ m ∷ post) ≡ true
    → any p (pre ++ n ∷ post) ≡ true
any-middle p [] m n post f h = elim (Bool-cases (p m)) [
  | inl t ↦ rw (f t) refl
  | inr t ↦
      let whole : any p (m ∷ post) ≡ true = h in
      let tail : any p post ≡ true = ground arith in
      elim (Bool-cases (p n)) [ inl y ↦ rw y refl | inr y ↦ rw y tail ]
]
any-middle p (x ∷ pre) m n post f h = elim (Bool-cases (p x)) [
  | inl t ↦ rw t refl
  | inr t ↦ rw t (any-middle p pre m n post f (ground arith))
]

any_here :
    (p : Member → Bool) (pre : List Member) (n : Member) (post : List Member)
    → p n ≡ true
    → any p (pre ++ n ∷ post) ≡ true
any_here p [] n post h = rw h refl
any_here p (x ∷ pre) n post h = ground (arith, any_here p pre n post)

any_front : (p : Member → Bool) (xs ys : List Member) → any p xs ≡ true → any p (xs ++ ys) ≡ true
any_front p [] ys h = cc
any_front p (x ∷ xs) ys h = ground (arith, any_front p xs ys)

id_taken :
    (u : Text) (m : Member) (v : Text)
    → same_name m.rt_uniqueid v ≡ true
    → has_id u m ≡ true
    → same_name v u ≡ true
id_taken u m v named h =
    same_name_trans v m.rt_uniqueid u (same_name_sym v m.rt_uniqueid ∙ named) (ground arith)

Step-Present :
    (u : Text) (w : Words) (neg : Bool) (q : CallQueue) (r : RtRecord) (q' : CallQueue)
    → Step w neg q r q'
    → Present u q.members
    → Present u q'.members
unfolding member_add_to_queue
Step-Present u w neg q r q' passed h = h
Step-Present u w neg q r q' (updated n pre m post t at named) h =
    any-middle (has_id u) pre m (rt_update w q.ringinuse n r m) post
      (id_taken u m (text_of r.uniqueid) named) (subst (Present u) at h)
Step-Present u w neg q r q' (added m t) h = any_front (has_id u) q.members _ h

handle_all-Present :
    (u : Text) (w : Words) (neg : Bool) (q : CallQueue) (rs : List RtRecord)
    → Present u q.members
    → Present u (rt_handle_all w neg q rs).members
unfolding rt_handle_all
handle_all-Present u w neg q [] h = h
handle_all-Present u w neg q (r ∷ rs) h =
    handle_all-Present u w neg (rt_handle_member_record w neg q r) rs
      (Step-Present u w neg q r _ (handle-Step w neg q r) h)

rt_created-some :
    (w : Words) (b : Bool) (n : ℕ) (r : RtRecord)
    → ((t : Text) → w.allocates t ≡ true)
    → (m : Member) × (rt_created w b n r ≡ some m)
unfolding rt_created create_queue_member
rt_created-some w b n r h = elim (Option-cases (rt_created w b n r)) [
  | inl e ↦ absurd (ground (arith, h r.interface))
  | inr made ↦ made
]

found-Present :
    (w : Words) (q : CallQueue) (n : ℕ) (r : RtRecord) (o : Option (List Member))
    → ((t : Text) → w.allocates t ≡ true)
    → rt_find w q.ringinuse n r q.members ≡ o
    → Present (text_of r.uniqueid) (rt_found w q n r o).members
unfolding member_add_to_queue
found-Present w q n r (some ms) h e =
    let (pre, m, post, at, named, left) = rt_find_at w q.ringinuse n r q.members ms e in
    rw left (
      any_here (has_id (text_of r.uniqueid)) pre (rt_update w q.ringinuse n r m) post
        (same_name_refl (text_of r.uniqueid)))
found-Present w q n r none h e =
    let (m, made) = rt_created-some w q.ringinuse n r h in
    rw made
      (any_here (has_id (text_of r.uniqueid)) q.members _ [] (same_name_refl (text_of r.uniqueid)))

-- A record that is not passed over has its member.
handle-Present :
    (w : Words) (neg : Bool) (q : CallQueue) (r : RtRecord)
    → ((t : Text) → w.allocates t ≡ true)
    → Takes neg r
    → Present (text_of r.uniqueid) (rt_handle_member_record w neg q r).members
unfolding rt_handle_member_record
handle-Present w neg q r h (i, n, e) =
    rw i (rw e (found-Present w q n r (rt_find w q.ringinuse n r q.members) h refl))

pub handle_all-listed :
    (w : Words) (neg : Bool) (q : CallQueue) (rs : List RtRecord)
    → ((t : Text) → w.allocates t ≡ true)
    → All (λ r. Takes neg r → Present (text_of r.uniqueid) (rt_handle_all w neg q rs).members) rs
unfolding rt_handle_all
handle_all-listed w neg q [] h = tt
handle_all-listed w neg q (r ∷ rs) h =
    let q' = rt_handle_member_record w neg q r in
    (
      λ t. handle_all-Present (text_of r.uniqueid) w neg q' rs (handle-Present w neg q r h t),
      handle_all-listed w neg q' rs h,
    )
