-- ===== src/Connection/Tests.antt =====
-- Runs of net/TcpConnectionff.cpp, and the theorems at concrete connections.
use firey.Prelude.{
  ℕ, ◌-◌, ◌≡◌, refl, true, false, [], ◌∷◌, List, some, none, arith, inr, length, take, drop, Bytes,
}
use firey.Buffer.{Buffer}
use firey.Buffer.Contents.{IsValid, contents}
use firey.Channel.{Index, new_channel, set_callback}
use firey.Channel.Coherent.{Linked, mask_of}
use firey.Channel.Poller.{
  Poller, new_poller, put, update, update_channel, update_in, control, remove, remove_channel,
  remove_in,
}
use firey.Channel.Table.{Table, epoll, epoll-Documented, empty}
use firey.Channel.Watch.{Watch, WatchLaws, poller_watch, poller_laws}
use firey.Connection.{
  Connection, ConnState, Effect, new_connection, shutdown, wrote, connection, closed, shut_write,
  queued_write_complete, set_write_complete_callback, set_high_water_callback, took, would_block,
}
use firey.Connection.Send.{send, send_in_loop}
use firey.Connection.Handlers.{connection_established, force_close, connection_destroy}
use firey.Connection.Keeps.{Phase, accept_all, Matches}
use firey.Connection.Trace.{Call, step, run, run-Matches}
use firey.Connection.Queued.{sent}
use firey.Connection.Sent.{notes, wanted_after, send_in_loop_lem, send_in_loop-none}
use firey.Connection.Stuck.{Stuck, reads_only, partial_send-Stuck}
use firey.Connection.Drain.{Drained, drain_lem}

abbrev watch : Watch (Poller Table)
watch = poller_watch epoll

abbrev laws : WatchLaws watch
laws = poller_laws epoll epoll-Documented

abbrev no_bytes : Buffer
no_bytes = record {
  storage = 0 ∷ 0 ∷ 0 ∷ 0 ∷ 0 ∷ 0 ∷ 0 ∷ 0 ∷ [];
  reader_index = 8;
  writer_index = 8;
}

no_bytes-IsValid : IsValid no_bytes
no_bytes-IsValid = omega arith

-- A connection on descriptor 5 whose channel waits for the events of a mask.
abbrev watching : ℕ → Poller Table
watching mask = record {
  channels = put (λ fd. none) 5 (some 1);
  room = 16;
  kernel = put empty 5 (some (record { events = mask; data_ = 1 }));
}

abbrev with_mask : ℕ → Connection (Poller Table)
with_mask mask = record {
  state = ConnState.connected;
  reading = false;
  channel = record {
    id = 1;
    fd = 5;
    events = mask;
    revents = 0;
    index = Index.added;
    add_to_loop = true;
    tied = true;
    has_callback = λ k. true;
  };
  loop = watching mask;
  input = no_bytes;
  output = no_bytes;
  high_water_mark = 100;
  has_write_complete = true;
  has_high_water = false;
}

abbrev hello : Bytes
hello = 104 ∷ 105 ∷ 33 ∷ []

send_in_loop_lem_example :
    (c1 : Connection (Poller Table)) × (es : List Effect) × (send_in_loop watch
        (with_mask 1)
        hello
        (took 2)
      ≡ some (c1, es))
    × (sent es ≡ take 2 hello)
    × (contents c1.output ≡ drop 2 hello)
    × IsValid c1.output
    × laws.Holds c1.loop c1.channel (wanted_after (length hello - 2) (some reads_only))
    × (c1.state ≡ ConnState.connected)
    × (c1.reading ≡ false)
    × (es ≡ wrote (take 2 hello) ∷ notes (with_mask 1) (length hello - 2))
unfolding mask_of
send_in_loop_lem_example =
    send_in_loop_lem laws (with_mask 1) (some reads_only) hello 2 refl (Linked.added refl refl) refl
      no_bytes-IsValid refl (omega arith) (omega arith) (omega arith) (omega arith)

-- A full socket: the program stops.
send_in_loop-none_example : send_in_loop watch (with_mask 1) hello would_block ≡ none
send_in_loop-none_example =
    send_in_loop-none laws (with_mask 1) hello would_block refl (omega arith) (inr (inr refl))

partial_send-Stuck_example :
    (c1 : Connection (Poller Table)) × (es : List Effect) × (send_in_loop watch
        (with_mask 1)
        hello
        (took 2)
      ≡ some (c1, es))
    × (contents c1.output ≡ drop 2 hello)
    × (c1.reading ≡ false)
    × Stuck laws c1
unfolding mask_of
partial_send-Stuck_example =
    partial_send-Stuck laws (with_mask 1) hello 2 refl (Linked.added refl refl) no_bytes-IsValid
      refl (omega arith) (omega arith) (omega arith) (omega arith)

-- Three bytes are left, and the channel waits for writing alone.
abbrev waiting : Connection (Poller Table)
waiting = record (with_mask 4) {
  output = record {
    storage = 0 ∷ 0 ∷ 0 ∷ 0 ∷ 0 ∷ 0 ∷ 0 ∷ 0 ∷ hello;
    reader_index = 8;
    writer_index = 11;
  };
}

drain_lem_example : Drained laws (λ m. 1) 3 waiting
unfolding mask_of
drain_lem_example =
    drain_lem laws (λ m. 1) (λ m pos. (omega arith, omega arith)) 3 waiting (Linked.added refl refl)
      (omega arith) (omega arith)

-- A connection comes up, answers, is shut down by its user, closed and destroyed.
abbrev calls : List Call
calls =
    Call.sets_write_complete
    ∷ Call.sets_high_water 2
    ∷ Call.established
    ∷ Call.sends hello (took 3)
    ∷ Call.shuts_down
    ∷ Call.force_closes
    ∷ Call.destroyed
    ∷ []

abbrev start : Connection (Poller Table)
start = new_connection (new_poller empty) 1 5 no_bytes

abbrev ended : Connection (Poller Table)
ended = elim (run watch start calls) [ none ↦ start | some r ↦ r.0 ]

abbrev told : List Effect
told =
    connection true
    ∷ wrote hello
    ∷ queued_write_complete
    ∷ shut_write
    ∷ connection false
    ∷ closed
    ∷ []

runs : run watch start calls ≡ some (ended, told)
unfolding run step set_write_complete_callback set_high_water_callback set_callback
    connection_established new_connection update update_channel update_in new_channel new_poller
    control send shutdown force_close connection_destroy remove remove_channel remove_in
runs = refl

run-Matches_example :
    (ph : Phase) × (accept_all Phase.fresh told ≡ some ph) × Matches ended.state ph
unfolding new_channel set_callback new_poller
run-Matches_example =
    run-Matches laws (new_poller empty) 1 5 no_bytes (Linked.new refl refl) calls ended told runs
