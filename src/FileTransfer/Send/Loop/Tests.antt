-- ===== src/FileTransfer/Send/Loop/Tests.antt =====
-- A run of the sender on a small file, and its theorems at concrete inputs.
use thincan.Common.{false, replicate, ◌++◌, ℕ, ◌≡◌, refl, List, [], ◌∷◌, Result, ok, err, arith}
use thincan.Protocol.Wire.{Error, timeout_error}
use thincan.FileTransfer.Messages.{FileAckKind, accept, ack, no_error, FileAck}
use thincan.FileTransfer.Send.{
  SendConfig, new_send_state, validate, AckEvent, timed_out, arrived, wait_for_transfer_ack,
  inflight_chunk_count,
}
use thincan.FileTransfer.Send.Loop.{
  SendOp, offered, sent_chunk, finished, Window, offering, sending, wait, offer, chunk_at,
  send_offer, on_wait, send_window, send_file_with_id, has_room,
}
use thincan.FileTransfer.Send.Loop.Invariant.{Ends, IsRun, IsWaiting}
use thincan.FileTransfer.Send.Loop.Results.{on_wait-IsRun}
use thincan.FileTransfer.Send.Loop.Timeouts.{is_waiting, send_file_with_id_ends}
use thincan.FileTransfer.Send.Loop.Promise.{
  IsReached, started, went_on, on_wait_late, send_file_with_id-Ends,
}

-- A bus that sends everything.
abbrev calm : List SendOp → SendOp → Result (Unit {0}) Error
calm trace o = ok tt

abbrev digest : List ℕ → List ℕ
digest bytes = []

abbrev file : List ℕ
file = 1 ∷ 2 ∷ 3 ∷ []

-- Two chunks of a byte may be in flight.
abbrev config : SendConfig
config = record { sender_max_chunk_size = 1; window_chunks = 2; max_retries = 5 }

abbrev an_ack : FileAckKind → ℕ → AckEvent
an_ack kind n = arrived (
    ok (record {
      transfer_id = 7;
      kind = ok kind;
      next_offset = n;
      chunk_size = 1;
      error = ok no_error;
    }))

abbrev acks : List AckEvent
acks = an_ack accept 0 ∷ an_ack ack 1 ∷ timed_out ∷ an_ack ack 3 ∷ []

send_file_with_id-Ends_example :
    let r = send_file_with_id calm digest 7 file config new_send_state acks in
    Ends calm digest 7 file config (r.1).0 (r.1).1
send_file_with_id-Ends_example =
    send_file_with_id-Ends calm digest 7 file config new_send_state acks

-- The run: after the timeout the second and the third byte are sent again.
ended :
    ((send_file_with_id calm digest 7 file config new_send_state acks).1).1
    ≡ finished
        (record { transfer_id = 7; total_len = 3; chunk_size = 1; chunks_sent = 5; retries = 1 })
unfolding send_file_with_id validate wait_for_transfer_ack inflight_chunk_count
ended = refl

-- The window after two chunks.
abbrev two_sent : Window
two_sent = record { last_acked = 0; next_to_send = 2; chunks_sent = 2; retries = 0 }

abbrev two_sent_trace : List SendOp
two_sent_trace =
    sent_chunk (chunk_at calm digest 7 file config 1 1)
    ∷ sent_chunk (chunk_at calm digest 7 file config 1 0)
    ∷ offered (offer calm digest 7 file config)
    ∷ []

two_sent-IsWaiting : IsWaiting calm digest 7 file config 1 two_sent two_sent_trace
unfolding inflight_chunk_count has_room
two_sent-IsWaiting = record {
  window = record {
    some_size = omega arith;
    agreed_size = omega arith;
    ordered = omega arith;
    within = omega arith;
    windowed = omega arith;
    counted = refl;
    covered = (refl, (refl, tt));
    tries = omega arith;
    faithful = (
      record {
        same_id = refl;
        some_bytes = omega arith;
        bounded = omega arith;
        inside = omega arith;
        slice = refl;
      },
      (
        record {
          same_id = refl;
          some_bytes = omega arith;
          bounded = omega arith;
          inside = omega arith;
          slice = refl;
        },
        (refl, tt),
      ),
    );
    reach = omega arith;
    inside = omega arith;
  };
  full = refl;
  highest = omega arith;
}

abbrev late : FileAck
late = record { transfer_id = 7; kind = ack; next_offset = 1; chunk_size = 0; error = no_error }

-- After a timeout the two chunks are sent again.
abbrev rewound : Window
rewound = record { last_acked = 0; next_to_send = 2; chunks_sent = 4; retries = 1 }

abbrev rewound_trace : List SendOp
rewound_trace =
    sent_chunk (chunk_at calm digest 7 file config 1 1)
    ∷ sent_chunk (chunk_at calm digest 7 file config 1 0)
    ∷ two_sent_trace

abbrev accepted : FileAck
accepted = record late { kind = accept; next_offset = 0; chunk_size = 1 }

rewound-IsReached : IsReached calm digest 7 file config (wait (sending 1 rewound) rewound_trace)
unfolding on_wait send_offer inflight_chunk_count has_room
rewound-IsReached =
    went_on (sending 1 two_sent) two_sent_trace (err timeout_error)
      (went_on (offering 0) (offered (offer calm digest 7 file config) ∷ []) (ok accepted)
        (started refl) refl)
      refl

on_wait_late_example :
    on_wait calm digest 7 file config (sending 1 rewound) rewound_trace (ok late)
    ≡ send_window calm digest 7 file config 1
        (record { last_acked = 1; next_to_send = 2; chunks_sent = 4; retries = 1 })
        rewound_trace
on_wait_late_example =
    on_wait_late calm digest 7 file config (omega arith) 1 rewound rewound_trace late
      rewound-IsReached refl (omega arith) (omega arith)

on_wait-IsRun_example :
    IsRun calm digest 7 file config
      (on_wait calm digest 7 file config (sending 1 two_sent) two_sent_trace (ok late))
on_wait-IsRun_example =
    on_wait-IsRun calm digest 7 file config (omega arith) (sending 1 two_sent) two_sent_trace
      (ok late) two_sent-IsWaiting

send_file_with_id_ends_example :
    is_waiting
      ((send_file_with_id calm digest 7 file config new_send_state
          (acks ++ replicate 6 timed_out)).1
        ).1
    ≡ false
send_file_with_id_ends_example =
    send_file_with_id_ends calm digest 7 file config new_send_state acks
