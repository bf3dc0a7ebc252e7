-- ===== src/Queue/Persist.antt =====
-- Dynamic members in the database: `dump_queue_members` and `reload_queue_members`.
-- The database is a list of keys and texts. `erange` tells of a text whether errno is ERANGE once strtol
-- has read it, which it also is where it was before, since the source does not reset it. Numbers fit an
-- int, and penalties are not negative. Memory is found for the text of a dump; a queue that is not in
-- memory is not loaded from a realtime database.
pub mod Entries
pub mod Dumped
pub mod Restored
use vx_pbx.Base.{
  ℕ, ◌+◌, Bool, true, false, not, ◌&&◌, ◌||◌, List, [], ◌∷◌, ◌++◌, Option, none, some,
}
use vx_pbx.Base.Tests.{◌==◌, if◌then◌else◌}
use vx_pbx.Base.Lists.{get_elem?}
use vx_pbx.Base.Int.{ℤ, pos, pos_part, eqb_ℤ}
use vx_pbx.Base.Cstr.{atoi}
use vx_pbx.Base.Decimal.{decimal}
use vx_pbx.Base.Tokens.{tokens}
use vx_pbx.Queue.Types.{Text, Member, CallQueue}
use vx_pbx.Queue.Name.{same_name}
use vx_pbx.Queue.Roster.{
  Res, okay, exists, nosuchqueue, not_dynamic, outofmemory, add_to_queue, is_empty,
}
use vx_pbx.Queue.Reload.{Words, create_queue_member}

-- A 0 or 1 as `%d` prints it.
abbrev pub flag_text : Bool → Text
flag_text true = b'1' ∷ []
flag_text false = b'0' ∷ []

-- "%s;%d;%d;%s;%s"
unfoldable pub entry_of : Member → Text
entry_of m =
    m.interface
    ++ b';'
      ∷ (decimal m.penalty
          ++ b';' ∷ (flag_text m.paused ++ b';' ∷ (m.membername ++ b';' ∷ m.state_interface)))

-- The text so far, with another entry behind it.
unfoldable pub append_entry : Text → Member → Text
unfolding entry_of
append_entry value m = if is_empty value then entry_of m else value ++ b'|' ∷ entry_of m

unfoldable pub dump_all : Text → List Member → Text
unfolding append_entry
dump_all value [] = value
dump_all value (m ∷ ms) = dump_all (if m.dynamic then append_entry value m else value) ms

-- What stands in the database behind the dump; `none` is no entry.
unfoldable pub dump_queue_members : List Member → Option Text
unfolding dump_all
dump_queue_members ms = let value = dump_all [] ms in if is_empty value then none else some value

-- The parts of an entry.
pub record Entry : Type 0 where
  pub interface : Text
  pub penalty : ℕ
  pub paused : Bool
  pub membername : Text
  pub state_interface : Text

abbrev pub is_semicolon : ℕ → Bool
is_semicolon c = c == b';'

abbrev pub is_separator : ℕ → Bool
is_separator c = c == b',' || c == b'|'

-- A token that is missing is NULL, which `create_queue_member` takes for an empty text.
abbrev pub text_or_empty : Option Text → Text
text_or_empty none = []
text_or_empty (some t) = t

abbrev pub is_bit : ℤ → Bool
is_bit n = eqb_ℤ n (pos 0) || eqb_ℤ n (pos 1)

-- The parts behind the interface; `none` ends the reading of the queue's entry.
abbrev pub numbers : (Text → Bool) → Option Text → Option Text → Option (ℕ × Bool)
numbers erange none paused_tok = none
numbers erange (some penalty_tok) none = none
numbers erange (some penalty_tok) (some paused_tok) =
    if erange penalty_tok || erange paused_tok || not (is_bit (atoi paused_tok))
    then none
    else some (pos_part (atoi penalty_tok), eqb_ℤ (atoi paused_tok) (pos 1))

unfoldable pub entry_from : (Text → Bool) → List Text → Option Entry
entry_from erange parts = elim (numbers erange (get_elem? parts 1) (get_elem? parts 2)) [
  | none ↦ none
  | some (penalty, paused) ↦ some record {
    interface = text_or_empty (get_elem? parts 0);
    penalty = penalty;
    paused = paused;
    membername = text_or_empty (get_elem? parts 3);
    state_interface = text_or_empty (get_elem? parts 4);
  }
]

unfoldable pub parse_entry : (Text → Bool) → Text → Option Entry
unfolding entry_from
parse_entry erange member = entry_from erange (tokens is_semicolon member)

abbrev pub queue_or : CallQueue → Option CallQueue → CallQueue
queue_or q none = q
queue_or q (some q') = q'

-- `add_to_queue` for an entry.
unfoldable pub add_entry : Words → CallQueue → Entry → Res × Option CallQueue
unfolding add_to_queue create_queue_member
add_entry w q e = add_to_queue (some q) e.interface (
    create_queue_member w e.interface e.membername e.penalty e.paused e.state_interface q.ringinuse)

-- Only where memory is out the loop ends.
unfoldable pub after_add : CallQueue → (CallQueue → CallQueue) → Res → Option CallQueue → CallQueue
after_add q more outofmemory o = queue_or q o
after_add q more _ o = more (queue_or q o)

-- The loop over the entries of a queue.
unfoldable pub restore_all : Words → (Text → Bool) → CallQueue → List Text → CallQueue
unfolding parse_entry add_entry after_add
restore_all w erange q [] = q
restore_all w erange q ([] ∷ ts) = restore_all w erange q ts
restore_all w erange q ((c ∷ cs) ∷ ts) = elim (parse_entry erange (c ∷ cs)) [
  | none ↦ q
  | some e ↦
      let added = add_entry w q e in after_add q (λ q'. restore_all w erange q' ts) added.0 added.1
]

unfoldable pub restore : Words → (Text → Bool) → CallQueue → Text → CallQueue
unfolding restore_all
restore w erange q queue_data = restore_all w erange q (tokens is_separator queue_data)

-- An entry for the first queue of that name; `none` where there is none.
unfoldable pub restore_in :
    Words → (Text → Bool) → Text → Text → List CallQueue → Option (List CallQueue)
unfolding restore
restore_in w erange queue_name queue_data [] = none
restore_in w erange queue_name queue_data (q ∷ qs) =
    let rest = restore_in w erange queue_name queue_data qs in
    if same_name q.name queue_name
    then some (restore w erange q queue_data ∷ qs)
    else (elim rest [ none ↦ none | some qs' ↦ some (q ∷ qs') ])

-- The database and the queues afterwards; the entry of a queue that does not exist is deleted.
unfoldable pub reload_queue_members :
    Words
    → (Text → Bool)
    → List (Text × Text)
    → List CallQueue
    → List (Text × Text) × List CallQueue
unfolding restore_in
reload_queue_members w erange [] qs = ([], qs)
reload_queue_members w erange ((queue_name, queue_data) ∷ db) qs =
    elim (restore_in w erange queue_name queue_data qs) [
      | none ↦ reload_queue_members w erange db qs
      | some qs' ↦
          let rest = reload_queue_members w erange db qs' in
          ((queue_name, queue_data) ∷ rest.0, rest.1)
    ]
