-- ===== src/Queue/Answer/Silent.antt =====
-- What `rna` does to a member who lets it ring.
use vx_pbx.Base.{ℕ, ◌≡◌, ◌⊎◌, refl, Bool, true, false, ◌&&◌, List, inl, inr}
use vx_pbx.Base.Tests.{Bool-cases}
use vx_pbx.Base.Lists.{All}
use vx_pbx.Base.Int.{pos, ltb_ℤ}
use vx_pbx.Queue.Types.{Text, Member, CallQueue}
use vx_pbx.Queue.Roster.{find_member}
use vx_pbx.Queue.Roster.Pausing.{FoundPaused, set_member_paused-FoundPaused}
use vx_pbx.Queue.Settings.{QueueConfig, all}
use vx_pbx.Queue.Answer.{rna, is_spared}

-- Where members are paused in all queues and no database refuses, a member of the caller's queue whose
-- last call is not zero and less than a positive autopausedelay ago is paused nowhere; otherwise the member
-- of that interface is paused in each queue that has one.
pub rna-FoundPaused :
    (fails : CallQueue → Member → Bool) (config : QueueConfig) (now : ℕ) (parent : CallQueue)
    (interface : Text) (queues : List CallQueue)
    → config.autopause ≡ all
    → ((q : CallQueue) (m : Member) → fails q m ≡ false)
    → (let spared =
          ltb_ℤ (pos 0) config.autopausedelay
          && is_spared config now (find_member interface parent.members) in
        ((spared ≡ true) × (rna fails config now parent interface true queues ≡ queues))
        ⊎ ((spared ≡ false)
            × All (FoundPaused interface true) (rna fails config now parent interface true queues)))
unfolding rna
rna-FoundPaused fails config now parent interface queues e h =
    let spared =
      ltb_ℤ (pos 0) config.autopausedelay
      && is_spared config now (find_member interface parent.members) in
    elim (Bool-cases spared) [
      | inl kept ↦ inl (kept, rw (e, kept) refl)
      | inr other ↦
          inr (other, rw (e, other) (set_member_paused-FoundPaused fails interface true queues h))
    ]
