-- ===== src/Queue/Answer.antt =====
-- Waiting for a member who takes the call: `wait_for_answer`, a round of its loop at a time, and `rna`.
-- A `Poll` holds what a round meets: the results of ast_remaining_ms, of ast_waitfor_n, and what the
-- channel that it names brings. Channels are told apart by the place of their attempt. Indications,
-- connected lines, redirections, advice of charge and music are left out; none of them is read here.
-- The calls of `rna` are collected, and the queues that `ring_one` compares by weight stay as they
-- are.
pub mod Loop
pub mod Picked
pub mod Picks
pub mod Linked
pub mod Walked
pub mod Hangup
pub mod Interfaces
pub mod Silent
use vx_pbx.Base.{
  ℕ, zero, suc, ◌+◌, Bool, true, false, not, ◌&&◌, ◌||◌, List, [], ◌∷◌, ◌++◌, map, Option, none,
  some,
}
use vx_pbx.Base.Tests.{ltb, ◌==◌, if◌then◌else◌}
use vx_pbx.Base.Lists.{length, get_elem?, set}
use vx_pbx.Base.Int.{ℤ, pos, negsuc, sub_ℕ, ltb_ℤ, eqb_ℤ}
use vx_pbx.Queue.Types.{Text, Member, QueueEnt, CallQueue}
use vx_pbx.Queue.Members.{is_ringall}
use vx_pbx.Queue.Metric.{CallAttempt}
use vx_pbx.Queue.Ring.{Phones, Queues, Ringing, Ended, ring_one}
use vx_pbx.Queue.Roster.{find_member, set_member_paused}
use vx_pbx.Queue.Settings.{QueueConfig, Autopause, off, on, all}
use vx_pbx.Queue.Wait.{Round, announce_position, announce_periodic}

-- Whose channel has something: the caller's, that of an attempt, or nobody's.
pub data Winner : Type 0 where
  caller nobody : Winner
  leg : ℕ → Winner

-- The end of a call to a member who forwards it.
pub data Forwarding : Type 0 where
  stays prevented no_channel cannot_dial forwarded : Forwarding

-- What is read from the channel of an attempt; `hung_up` is NULL.
pub data Frame : Type 0 where
  answers busy congestion hung_up other : Frame

-- What is read from the caller's channel.
pub data Pressed : Type 0 where
  hangs_up speaks : Pressed
  dials : ℕ → Pressed

-- `left` and `left_later` are ast_remaining_ms, of a start and a limit, at the head of the round and
-- behind a member who did not answer; `now` is ast_tvnow there.
pub record Poll : Type 0 where
  pub left : ℕ → ℤ → ℤ
  pub left_later : ℕ → ℤ → ℤ
  pub now : ℕ
  pub winner : Winner
  pub is_up : ℕ → Bool
  pub forwarding : Forwarding
  pub frame : Frame
  pub pressed : Pressed
  pub exits : ℕ → Bool
  pub phones : Phones

-- The variables of the loop. `links` are the fields `call_next`, and `unanswered` are the calls of `rna`,
-- the last one first, each with its interface and `autopause`.
pub record Waiting : Type 0 where
  pub outgoing : List CallAttempt
  pub links : List (Option ℕ)
  pub start : Option ℕ
  pub ringing : Ringing
  pub numnochan : ℕ
  pub stillgoing : Bool
  pub peer : Option ℕ
  pub start_time : ℕ
  pub unanswered : List (Text × Bool)

-- The walk that links the attempts with a channel: `start`, `prev`, whether one is found, and `call_next`.
pub record Chain : Type 0 where
  pub start : Option ℕ
  pub prev : ℕ
  pub found : Bool
  pub stillgoing : Bool
  pub links : List (Option ℕ)

abbrev pub link_to : Chain → ℕ → Option ℕ → Chain
link_to c i none = record c { start = some i; prev = i; found = true }
link_to c i (some first) = record c { links = set c.links c.prev (some i); prev = i; found = true }

unfoldable pub link_one : ℕ → CallAttempt → Chain → Chain
link_one i o c =
    let c' = record c { stillgoing = true } in
    if o.stillgoing then (if o.called then link_to c' i c.start else c') else c

unfoldable pub link_all : ℕ → List CallAttempt → Chain → Chain
unfolding link_one
link_all i [] c = c
link_all i (o ∷ os) c = link_all (i + 1) os (link_one i o c)

-- The walk over all attempts, from the `start` and the `stillgoing` that were left.
unfoldable pub link_attempts : Waiting → Chain
unfolding link_all
link_attempts s = link_all 0 s.outgoing (record {
  start = s.start;
  prev = 0;
  found = false;
  stillgoing = s.stillgoing;
  links = s.links;
})

abbrev pub linked : Waiting → Chain → Waiting
linked s c = record s { links = c.links; start = c.start; stillgoing = c.stillgoing }

-- `ring_one` on the attempts, with enough rounds.
unfoldable pub ring_more : Phones → Queues → Waiting → Waiting
ring_more phones queues s =
    let e = ring_one (suc (length s.outgoing)) phones queues 0 s.ringing s.outgoing in
    record s { outgoing = e.outgoing; ringing = e.state }

-- The two tries to find somebody who is called; the result tells whether one was found.
unfoldable pub gather : ℕ → Phones → Queues → Waiting → Bool × Waiting
unfolding link_attempts ring_more
gather zero phones queues s = (false, s)
gather (suc tries) phones queues s =
    let c = link_attempts s in
    let s' = linked s c in
    let again = gather tries phones queues (ring_more phones queues s') in
    if c.found || not c.stillgoing || not (is_ringall s.ringing.parent.strategy)
    then (c.found, s')
    else again

-- The attempts from `start` along `call_next`.
abbrev pub next_of : List (Option ℕ) → ℕ → Option ℕ
next_of links i = elim (get_elem? links i) [ none ↦ none | some l ↦ l ]

unfoldable pub chain : ℕ → List (Option ℕ) → Option ℕ → List ℕ
chain zero links o = []
chain (suc n) links none = []
chain (suc n) links (some i) = i ∷ chain n links (next_of links i)

-- `do_hang`
abbrev pub hung : CallAttempt → CallAttempt
hung o = record o { stillgoing = false; called = false }

abbrev pub put : Waiting → ℕ → CallAttempt → Waiting
put s i o = record s { outgoing = set s.outgoing i o }

abbrev pub picked : Waiting → ℕ → Option ℕ → Waiting
picked s i none = record s { peer = some i }
picked s i (some p) = s

-- Where a member did not take the call: under the strategies that call one at a time, the next one is
-- called if more than half a second is left.
unfoldable pub call_next : QueueConfig → Queues → ℤ → Poll → Waiting → Waiting
unfolding ring_more
call_next config queues orig p s =
    let start = if config.timeoutrestart then p.now else s.start_time in
    let s' = record s { start_time = start } in
    if is_ringall s.ringing.parent.strategy
    then s
    else if ltb_ℤ (pos 500) (p.left_later start orig)
    then ring_more p.phones queues s'
    else s'

abbrev pub refuses : Waiting → ℕ → CallAttempt → Bool → Waiting
refuses s i o autopause = record (put s i (hung o)) {
  unanswered = (o.member.interface, autopause) ∷ s.unanswered;
}

abbrev pub one_more_busy : Waiting → Waiting
one_more_busy s = record s { ringing = record (s.ringing) { busies = s.ringing.busies + 1 } }

abbrev pub one_more_failed : Waiting → Waiting
one_more_failed s = record s { numnochan = s.numnochan + 1 }

-- A frame of the winner.
unfoldable pub read_frame :
    QueueConfig → Queues → ℤ → Poll → ℕ → CallAttempt → Frame → Waiting → Waiting
unfolding call_next
read_frame config queues orig p i o answers s = picked s i s.peer
read_frame config queues orig p i o busy s =
    one_more_busy (call_next config queues orig p (refuses s i o config.autopausebusy))
read_frame config queues orig p i o congestion s =
    one_more_busy (call_next config queues orig p (refuses s i o config.autopauseunavail))
read_frame config queues orig p i o hung_up s = call_next config queues orig p (refuses s i o true)
read_frame config queues orig p i o other s = s

unfoldable pub forward :
    QueueConfig → Queues → ℤ → Poll → ℕ → CallAttempt → Forwarding → Waiting → Waiting
unfolding read_frame
forward config queues orig p i o stays s = read_frame config queues orig p i o p.frame s
forward config queues orig p i o prevented s = one_more_failed (put s i (hung o))
forward config queues orig p i o no_channel s = one_more_failed (put s i (hung o))
forward config queues orig p i o cannot_dial s = one_more_failed (put s i (hung o))
forward config queues orig p i o forwarded s = s

abbrev pub is_leg : ℕ → Winner → Bool
is_leg i caller = false
is_leg i nobody = false
is_leg i (leg j) = j == i

-- An attempt on the chain.
unfoldable pub service_one : QueueConfig → Queues → ℤ → Poll → ℕ → CallAttempt → Waiting → Waiting
unfolding forward
service_one config queues orig p i o s =
    if o.stillgoing && o.called && p.is_up i
    then picked s i s.peer
    else if o.called && is_leg i p.winner
    then forward config queues orig p i o p.forwarding s
    else s

unfoldable pub service : QueueConfig → Queues → ℤ → Poll → List ℕ → Waiting → Waiting
unfolding service_one
service config queues orig p [] s = s
service config queues orig p (i ∷ is) s =
    service config queues orig p is
      (elim (get_elem? s.outgoing i) [ none ↦ s | some o ↦ service_one config queues orig p i o s ])

-- What `wait_for_answer` returns, and what it writes to `*to` and `*digit`.
pub record Answered : Type 0 where
  pub peer : Option ℕ
  pub to : ℤ
  pub digit : ℕ
  pub state : Waiting

pub data Polled : Type 0 where
  waits : Waiting → Polled
  returns : Answered → Polled

abbrev pub returns_nobody : ℤ → ℕ → Waiting → Polled
returns_nobody to digit s = returns record { peer = none; to = to; digit = digit; state = s }

-- What the caller did; `caller_disconnect` lets it end the call by '*'.
unfoldable pub heed_caller : Bool → Poll → Pressed → Waiting → Polled
heed_caller caller_disconnect p hangs_up s = returns_nobody (negsuc 0) 0 s
heed_caller caller_disconnect p speaks s = waits s
heed_caller caller_disconnect p (dials c) s =
    if caller_disconnect && c == b'*'
    then returns_nobody (pos 0) 0 s
    else if p.exits c
    then returns_nobody (pos 0) c s
    else waits s

abbrev pub is_caller : Winner → Bool
is_caller caller = true
is_caller nobody = false
is_caller (leg j) = false

abbrev pub log_all : List Text → List (Text × Bool) → List (Text × Bool)
log_all [] log = log
log_all (i ∷ is) log = log_all is ((i, true) ∷ log)

-- Behind the loop: announcements to the first caller, and `rna` for the whole chain where the time is up.
unfoldable pub finish : QueueConfig → Round → ℤ → Waiting → Answered
unfolding chain
finish config rd to s =
    let t = rd.clock in
    let said = announce_position rd (t 0) s.ringing.parent s.ringing.entry in
    let played = announce_periodic rd (t 1) (t 2) said.queue said.entry in
    let ringing =
      if config.announce_to_first_user
      then record (s.ringing) { parent = said.queue; entry = played.entry }
      else s.ringing in
    let called = chain (suc (length s.links)) s.links s.start in
    let late =
      map (λ i. elim (get_elem? s.outgoing i) [ none ↦ [] | some o ↦ o.interface ]) called in
    record {
      peer = s.peer;
      to = to;
      digit = 0;
      state = record s {
        ringing = ringing;
        unanswered = if eqb_ℤ to (pos 0) then log_all late s.unanswered else s.unanswered;
      };
    }

abbrev pub is_set_peer : Option ℕ → Bool
is_set_peer none = false
is_set_peer (some p) = true

-- A round of the loop.
unfoldable pub poll_round : QueueConfig → Queues → Round → Bool → ℤ → Poll → Waiting → Polled
unfolding gather service chain heed_caller finish
poll_round config queues rd caller_disconnect orig p s =
    let to = p.left s.start_time orig in
    let (found, g) = gather 2 p.phones queues (record s { start = none }) in
    let served = service config queues orig p (chain (suc (length g.links)) g.links g.start) g in
    if eqb_ℤ to (pos 0) || is_set_peer s.peer
    then returns (finish config rd to s)
    else if not found
    then returns_nobody (pos 0) 0 g
    else if is_caller p.winner
    then heed_caller caller_disconnect p p.pressed served
    else waits served

abbrev pub poll_more : Polled → (Waiting → Polled) → Polled
poll_more (waits s) more = more s
poll_more (returns r) more = returns r

unfoldable pub poll_all : QueueConfig → Queues → Round → Bool → ℤ → List Poll → Waiting → Polled
unfolding poll_round
poll_all config queues rd caller_disconnect orig [] s = waits s
poll_all config queues rd caller_disconnect orig (p ∷ ps) s =
    poll_more (poll_round config queues rd caller_disconnect orig p s)
      (poll_all config queues rd caller_disconnect orig ps)

-- From its first round on: `start_time` is ast_tvnow, and no attempt is linked.
unfoldable pub wait_for_answer :
    QueueConfig → Queues → Round → Bool → ℤ → ℕ → List Poll → Ringing → List CallAttempt → Polled
unfolding poll_all
wait_for_answer config queues rd caller_disconnect orig start_time polls ringing outgoing =
    poll_all config queues rd caller_disconnect orig polls (record {
      outgoing = outgoing;
      links = map (λ (a : CallAttempt). none) outgoing;
      start = none;
      ringing = ringing;
      numnochan = 0;
      stillgoing = false;
      peer = none;
      start_time = start_time;
      unanswered = [];
    })

-- `rna`: whether the member is spared, as its last call is not longer ago than the delay.
abbrev pub is_spared : QueueConfig → ℕ → Option Member → Bool
is_spared config now none = false
is_spared config now (some mem) =
    not (mem.lastcall == 0) && ltb_ℤ (sub_ℕ now mem.lastcall) config.autopausedelay

abbrev pub paused_where : Autopause → Text → Text
paused_where off name = name
paused_where on name = name
paused_where all name = []

abbrev pub is_off : Autopause → Bool
is_off off = true
is_off on = false
is_off all = false

-- The queues behind `rna` for a caller of `parent`.
unfoldable pub rna :
    (CallQueue → Member → Bool)
    → QueueConfig
    → ℕ
    → CallQueue
    → Text
    → Bool
    → List CallQueue
    → List CallQueue
unfolding set_member_paused find_member
rna update_fails config now parent interface autopause queues =
    if is_off config.autopause || not autopause
    then queues
    else if ltb_ℤ (pos 0) config.autopausedelay
        && is_spared config now (find_member interface parent.members)
    then queues
    else (set_member_paused update_fails (paused_where config.autopause parent.name) interface true
        queues).0
