-- ===== src/Lib.antt =====
-- VX-PBX in C: the call queues of Asterisk/11/19/app_queue.c, the address daemon IPADDRD, and from
-- Asterisk/11/19/reqresp_parser.c the comparison of SIP URIs and the reading of SIP options.
--
-- The queue application keeps, for each queue, a line of callers and a container of members. A
-- caller joins the line (`join_queue`), waits until it is its turn (`wait_our_turn`), hearing its
-- position (`say_position`) and other sounds (`say_periodic_announcement`), and then has members
-- scored (`calc_metric`) and called (`ring_one`) until one answers (`wait_for_answer`) or the caller
-- gives up (`queue_exec`). Members come, go, pause, change their state and are read again from the
-- configuration, and the calls they take are counted (`update_queue`). Rules change a caller's
-- penalty limits over time. Each operation is a function of the queue, which it returns changed; the
-- loops of `queue_exec` take a round at a time, and other threads change the queue between rounds.
--
-- The channel driver compares URIs (`sip_uri_cmp`) part by part, and reads the options that the other
-- side asks for or supports (`parse_sip_options`) into a bit field, and those that it cannot offer
-- into a buffer.
--
-- Base: shared lists, tests, signed integers and C strings.
-- Queue.Types: the structures; a pointer is an address. Queue.Name: strcasecmp on interfaces.
-- Queue.Line: join_queue with insert_entry, leave_queue; callers are `QueueEnt`, in a list from
--   q->head on. What get_member_status says to a caller who joins is an argument.
-- Queue.Members: is_member_available, num_available_members, compare_weight, get_member_status.
-- Queue.Roster: interface_exists, member_add_to_queue, member_remove_from_queue, add_to_queue,
--   remove_from_queue, set_member_paused. Queue.Metric: calc_metric, find_best, store_next_rr,
--   store_next_lin. Queue.Ring: can_ring_entry, ring_entry, ring_one. Queue.Turn: is_our_turn.
-- Queue.Penalty: insert_penaltychange, copy_rules, update_qe_rule and the loops that call it.
-- Queue.Stats: recalc_holdtime, update_queue, record_abandoned, clear_queue.
-- Queue.Settings: init_queue and queue_set_param; the settings stand in a record of their own there.
-- Queue.Say: say_position. Queue.Periodic: say_periodic_announcement.
-- Queue.Reload: the member part of reload_single_queue. Queue.State: handle_statechange,
--   set_member_value, get_member_penalty.
-- Queue.Try: the loop of try_calling that makes the attempts, and its timeout. Queue.Answer:
--   wait_for_answer, by rounds, and rna. Queue.Calling: try_calling up to the answer, composed of
--   these and ring_one.
-- Queue.Line.Tickets: what a line promises, a list of callers sorted by priority.
-- Queue.Persist: dump_queue_members, reload_queue_members. Queue.Realtime:
--   rt_handle_member_record, update_realtime_members. Queue.Hash: member_hash_fn. Queue.Exit:
--   valid_exit, whose result is an argument elsewhere.
-- Queue.Wait: wait_our_turn, by rounds. Queue.Exec: queue_exec behind join_queue, as a state machine
--   with the phases `check_turns` (the label) and `calling` (the loop of the head caller).
-- Ipaddrd.Frame: ipaddr and ipframe of IPADDRD/C/inet.c. Ipaddrd.Report: a round of its main loop.
-- Ipaddrd.Cli: cli of the same file.
-- Ipaddrd.Collector: what serve of IPADDRD/GO/SRC/main.go reads of a datagram.
-- Sip.Text: string functions. Sip.Uri: sip_uri_cmp with sip_uri_domain_cmp, sip_uri_headers_cmp and
--   sip_uri_params_cmp; decoding and the addresses of Asterisk's core are arguments.
--   Sip.Supported: parse_sip_options with the table of sip.h.
-- Tests: every theorem at a concrete input.
--
-- Integers of the queue do not overflow in the model, but for the metrics and the time to call members,
-- which wrap around as an int of 32 bits; times, settings and the penalties of members are not
-- negative there (negative_penalty_invalid is off), and the fields that can be negative are ℤ. The
-- container is the list of its members in the order of an iterator. The fuel of `ring_one` is
-- one more round than there are attempts, which is enough. The walk along `call_next` has a
-- step more than there are attempts, which is enough too. The loops of waiting run through a list
-- of rounds, and what is shown of them holds for every list. The frame of the daemon is a list of
-- bytes, and its counters are taken modulo 2^16.
--
-- Arguments: what telephony (with ast_waitfor_n, ast_read and ast_remaining_ms), the database,
-- getifaddrs, setns, zlib, getopt and the clock answer, and, for queue_exec, what try_calling
-- does, since its second half is outside.
-- Not modelled: music on hold, logs, events and channel variables, which decide nothing here;
-- the conversation in try_calling behind the answer, which stands on channels and bridges;
-- realtime queues; the manager and the CLI; chan_sip.c and cdr_pgsql.c; the parsers of
-- reqresp_parser.c but parse_sip_options and the comparison of URIs; the daemon's process
-- handling; the programs in other languages.
pub mod Base
pub mod Queue
pub mod Ipaddrd
pub mod Sip
mod Tests
