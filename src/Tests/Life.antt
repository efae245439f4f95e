-- ===== src/Tests/Life.antt =====
-- The sessionizer closes a ride that is requested and cancelled, and is then killed in the gap.
use stream_pipeline.Prelude.Dict
use stream_pipeline.Prelude.{
  ℕ, ◌≡◌, ◌==◌, refl, inl, inr, Error, true, false, none, List, [], ◌∷◌, In, IsNodup, All, arith,
  ok, if◌then◌else◌, ◌↔◌, raise, value_error, nat_key, text_key, select, dec_text, ℕ_discrete,
}
use stream_pipeline.Common.Events.{RideEvent}
use stream_pipeline.Common.Times.{Timestamp, millis, to_epoch_ms}
use stream_pipeline.Processors.StateStore.{
  CloseRow, empty_store, open_rides, purge_confirmed, rollback_from, max_journal_ts, is_closed,
  exists, append_batch, insert_closes, insert_journal, insert_or_ignore, insert_or_replace,
}
use stream_pipeline.Prelude.Sort.{sorted, insort}
use stream_pipeline.Generator.StateMachine.{
  ride_event_type, event_seq, contains, is_kind, value as value_text,
}
use stream_pipeline.Processors.SessionBuilder.{
  add, terminal, terminal_in, build_session, first, first_in, avg_speed, diff_ms, distance,
  get_field, last_event_ts, or_one, timed_out,
}
use stream_pipeline.Processors.Sessionizer.State.{Sessionizer, Broker, start}
use stream_pipeline.Processors.Sessionizer.Batch.{
  Setting, Polled, message, partition_eof, value, take, take_all, take_value, normalise, accumulate,
  note_offset, note_time,
}
use stream_pipeline.Processors.Sessionizer.Recovery.{on_assign}
use stream_pipeline.Processors.Sessionizer.Process.{
  dead, process_batch, all_encode, close_by, close_now, close_one, collect_closes, commit_offsets,
  finish, forget, gather, letter_records, next_offsets, records, roll_back, transact, transaction,
}
use stream_pipeline.Processors.Sessionizer.Once.Steps.{
  System, after, published, broker_of, store_of, Reachable, at_start, then_step, restarted,
  assigned_to, processed,
}
use stream_pipeline.Processors.Sessionizer.Outcomes.{
  IsOutcomeOf, process_batch-outcome, process_batch-unknown_type,
}
use stream_pipeline.Processors.Sessionizer.Once.Folds.{IsDelivered}
use stream_pipeline.Processors.Sessionizer.Once.Stores.{IsConfirmed}
use stream_pipeline.Processors.Sessionizer.Once.Published.{Reachable-IsNodup, Reachable-published}
use stream_pipeline.Tests.Samples.{nat_floats, event_of, message_at}

abbrev setting : Setting ℕ
setting = record {
  decode = λ m. value (
      if m.offset == 0
      then event_of "e1" "requested" (millis 5)
      else event_of "e2" "cancelled" (millis 9));
  encodes = λ _. true;
  now = "2026-01-01T00:00:00.000+00:00";
  group_id = "sessionizer";
  session_timeout_ms = 1000;
  crash_after_state_commit = false;
}

abbrev broker : Broker ℕ
broker = record { log = []; committed = [] }

abbrev assigned_state : Sessionizer ℕ
assigned_state = record (start empty_store) {
  partitions = (0, record { watermark_ms = 0; max_offset_in_batch = none }) ∷ [];
}

assigned_state-on_assign : on_assign (start empty_store) broker (0 ∷ []) ≡ ok assigned_state
unfolding on_assign Dict.put Dict.get open_rides sorted select purge_confirmed rollback_from
    max_journal_ts
assigned_state-on_assign = refl

abbrev messages : List Polled
messages = message (message_at 0) ∷ message (message_at 1) ∷ []

messages-IsDelivered : All (IsDelivered (λ p. In p (0 ∷ [])) []) messages
unfolding Dict.get
messages-IsDelivered = ((inl refl, omega arith), ((inl refl, omega arith), tt))

abbrev closed : System ℕ
closed = after (0 ∷ []) (process_batch nat_floats setting true assigned_state broker messages)

closed-Reachable : Reachable nat_floats closed
closed-Reachable =
    then_step
      (then_step (then_step at_start (restarted empty_store broker)) (
        assigned_to [] (start empty_store) assigned_state broker (0 ∷ []) assigned_state-on_assign))
      (processed (0 ∷ []) assigned_state broker setting true messages messages-IsDelivered)

Reachable-IsNodup_example : IsNodup (published (broker_of closed).log)
Reachable-IsNodup_example = Reachable-IsNodup nat_floats closed closed-Reachable

Reachable-published_example : In "r1" (published (broker_of closed).log) ↔ (
    (c : CloseRow ℕ) × In c (store_of closed).closes
    × (c.ride_id ≡ "r1")
    × IsConfirmed (broker_of closed).committed c)
Reachable-published_example = Reachable-published nat_floats closed "r1" closed-Reachable

-- One session is published.
closed-published : published (broker_of closed).log ≡ "r1" ∷ []
unfolding process_batch published take_all take_value is_closed exists Dict.get add ride_event_type
    dec_text normalise Dict.put ℕ_discrete Dict.set_default terminal event_seq contains
    build_session first to_epoch_ms is_kind value_text Dict.pop select insort sorted avg_speed
    diff_ms distance first_in get_field last_event_ts or_one terminal_in timed_out accumulate
    note_offset note_time take all_encode close_by close_now close_one collect_closes commit_offsets
    finish forget gather letter_records next_offsets records roll_back transact transaction
    append_batch insert_closes insert_journal insert_or_ignore insert_or_replace
closed-published = refl

process_batch-outcome_example :
    IsOutcomeOf nat_floats setting messages assigned_state broker
      (process_batch nat_floats setting true assigned_state broker messages)
      (gather nat_floats setting assigned_state messages)
process_batch-outcome_example =
    process_batch-outcome nat_floats setting true assigned_state broker messages

-- An event that its schema admits and the program does not know.
abbrev warp : RideEvent ℕ Timestamp
warp = event_of "e3" "warp" (millis 7)

abbrev warped : Setting ℕ
warped = record setting { decode = λ m. value warp }

warp-unknown : ride_event_type "warp" ≡ raise value_error
unfolding ride_event_type dec_text
warp-unknown = refl

none_closed : is_closed {F = ℕ} empty_store "r1" ≡ false
unfolding is_closed exists
none_closed = refl

process_batch-unknown_type_example :
    (e : Error) × (process_batch nat_floats warped true assigned_state broker
        (partition_eof ∷ message (message_at 0) ∷ [])
      ≡ dead empty_store broker e)
process_batch-unknown_type_example =
    process_batch-unknown_type nat_floats warped true assigned_state broker (message_at 0)
      (partition_eof ∷ message (message_at 0) ∷ []) warp value_error refl warp-unknown none_closed
      (inr (inl refl))
