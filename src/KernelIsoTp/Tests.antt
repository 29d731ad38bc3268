-- ===== src/KernelIsoTp/Tests.antt =====
-- The theorems about the kernel's sockets at concrete inputs.
use thincan.Common.{
  ◌+◌, ◌*◌, ◌≡◌, refl, true, false, some, List, [], ◌∷◌, ◌++◌, All, length, replicate, ok, err,
  arith, if◌then◌else◌, ltb,
}
use thincan.UnixSocket.Frame.{extended}
use thincan.IsoTpQueue.Endpoint.{status_delivered_one}
use thincan.KernelIsoTp.{would_block, IsoTpKernelOptions, default_kernel_options}
use thincan.KernelIsoTp.Stmin.{
  duration_to_isotp_stmin, duration_to_poll_timeout, RoundsDown, duration_to_isotp_stmin-RoundsDown,
}
use thincan.KernelIsoTp.Kernel.{Kernel}
use thincan.KernelIsoTp.Socket.{SocketCanIsoTp, open_kernel}
use thincan.KernelIsoTp.Socket.Opened.{Opened, open_kernel-Opened}
use thincan.KernelIsoTp.Transfer.{
  polled, poll_loop, poll_fds, poll_fd, Polls, Wait, sent, send_failed, SocketSendResult, SendTurn,
  send_loop, OnPayload, brought, recv_failed, took, took_none, recv_one_loop,
}
use thincan.KernelIsoTp.Transfer.Send.{IsAnswered, Ended, send_loop-Ended}
use thincan.KernelIsoTp.Transfer.Async.{
  woken, elapsed, try_brought, try_io_would_block, IntoTurn, IntoResult, recv_into_async,
  recv_async,
}
use thincan.KernelIsoTp.Transfer.Async.Whole.{IsWhole, recv_into_async-IsWhole}
use thincan.KernelIsoTp.Transfer.Async.Equal.{
  WakesAs, no_reads, both_took, both_took_none, recv_async-recv_one_loop,
}
use thincan.KernelIsoTp.Demux.{UdsApi, new_demux, KernelUdsDemux, recv_from_peers}
use thincan.KernelIsoTp.Demux.Invariant.{IsDemux}
use thincan.KernelIsoTp.Demux.Runs.{
  registers, controls, sends, receives, DemuxOp, run_demux, run_demux-IsDemux,
}
use thincan.KernelIsoTp.Demux.Ready.{first, further, recv_from_peers_delivers}

-- 150 microseconds have no encoding of their own.
stmin_runs :
    (duration_to_isotp_stmin 400_000 ≡ 0xf4)
    × (duration_to_isotp_stmin 10_000_000 ≡ 10)
    × (duration_to_isotp_stmin 150_000 ≡ 0)
    × (duration_to_isotp_stmin 1_000_000_000 ≡ 0x7f)
unfolding duration_to_isotp_stmin
stmin_runs = (refl, refl, refl, refl)

duration_to_isotp_stmin-RoundsDown_example : RoundsDown 150_000
duration_to_isotp_stmin-RoundsDown_example = duration_to_isotp_stmin-RoundsDown 150_000

-- A kernel that numbers its sockets by the calls so far, and refuses a call after the thirtieth.
abbrev counting : Kernel
counting calls c = if ltb (length calls) 30 then ok (length calls) else err would_block

abbrev with_flow_control : IsoTpKernelOptions
with_flow_control = record default_kernel_options {
  flow_control = some (record { block_size = 8; st_min = 5; wft_max = 0 });
}

open_kernel-Opened_example :
    Opened counting "can0"
      (extended 17)
      (extended 18)
      with_flow_control
      []
      (open_kernel counting "can0" (extended 17) (extended 18) with_flow_control [])
open_kernel-Opened_example =
    open_kernel-Opened counting "can0" (extended 17) (extended 18) with_flow_control []

-- The socket is full once, then its deadline passes.
abbrev ready_later : Wait
ready_later = record {
  now = 3;
  polls = λ ms. polled 1 (record { readable = true; failed = false } ∷ []) ∷ [];
}

abbrev too_late : Wait
too_late = record { now = 20; polls = λ ms. [] }

abbrev full_once : List SendTurn
full_once = send_failed would_block ready_later ∷ sent 3 ∷ []

full_once-IsAnswered : All (IsAnswered 10) full_once
unfolding IsAnswered poll_fd poll_fds poll_loop duration_to_poll_timeout
full_once-IsAnswered = ((ok true, refl), (tt, tt))

send_loop-Ended_example :
    (r : SocketSendResult) × (left : List SendTurn) × (send_loop 10
        (full_once ++ (send_failed would_block too_late ∷ []))
      ≡ some (r, left))
    × Ended 10 (full_once ++ (send_failed would_block too_late ∷ [])) r left
send_loop-Ended_example =
    send_loop-Ended 10 full_once too_late [] full_once-IsAnswered (omega arith)

-- A message of four bytes, and a buffer of two.
abbrev long_message : List IntoTurn
long_message =
    record { wake = woken; reply = try_io_would_block }
    ∷ record { wake = woken; reply = try_brought (1 ∷ 2 ∷ 3 ∷ 4 ∷ []) }
    ∷ []

recv_into_async-IsWhole_example :
    (r : IntoResult) × (recv_into_async
        (long_message ++ (record { wake = elapsed; reply = try_io_would_block } ∷ []))
        (0 ∷ 0 ∷ [])
      ≡ some r)
    × IsWhole
        (long_message ++ (record { wake = elapsed; reply = try_io_would_block } ∷ []))
        (0 ∷ 0 ∷ [])
        r
recv_into_async-IsWhole_example =
    recv_into_async-IsWhole long_message try_io_would_block [] (0 ∷ 0 ∷ [])

abbrev accepting : OnPayload
accepting reply_to payload = ok tt

abbrev small_socket : SocketCanIsoTp
small_socket = record { fd = 5; rx_buf = replicate 4 0; wft_max = 0 }

ready_later-WakesAs : WakesAs 10 ready_later woken
unfolding WakesAs poll_fd poll_fds poll_loop duration_to_poll_timeout
ready_later-WakesAs = (refl, refl)

recv_async-recv_one_loop_example :
    recv_async accepting
      (record { reply = recv_failed would_block; wake = woken }
        ∷ record { reply = brought (1 ∷ 2 ∷ []); wake = elapsed }
        ∷ [])
      small_socket
    ≡ recv_one_loop accepting 10
        (took_none would_block ready_later ∷ took (1 ∷ 2 ∷ []) ∷ [])
        small_socket
recv_async-recv_one_loop_example =
    recv_async-recv_one_loop 10 accepting _ _ small_socket
      (both_took_none refl (λ e. ground (arith, e)) ready_later-WakesAs (both_took refl no_reads))

abbrev ids : UdsApi
ids = record {
  encode_phys_id_raw = λ target source. target * 256 + source;
  extended_new = λ raw. some raw;
  fits = λ target source. (target * 256 + source, refl);
}

abbrev some_ops : List DemuxOp
some_ops =
    registers 34
    ∷ sends 51 0 10 full_once
    ∷ controls (record { block_size = 4; st_min = 1_000_000 })
    ∷ receives accepting 10 ready_later.polls (λ fd. brought (1 ∷ 2 ∷ []))
    ∷ registers 17
    ∷ []

run_demux-IsDemux_example :
    let (demux, calls) =
      run_demux ids counting some_ops (new_demux "can0" 17 with_flow_control, []) in
    IsDemux ids counting demux calls
run_demux-IsDemux_example = run_demux-IsDemux ids counting "can0" 17 with_flow_control some_ops

abbrev two_peers : KernelUdsDemux
two_peers = record {
  iface = "can0";
  local_addr = 17;
  options = default_kernel_options;
  rx_flow_control = record { block_size = 0; st_min = 0 };
  peers =
      record { addr = 34; socket = small_socket }
      ∷ record { addr = 51; socket = record small_socket { fd = 6 } }
      ∷ [];
}

abbrev second_readable : Polls
second_readable ms =
    polled 1 (
      record { readable = false; failed = false } ∷ record { readable = true; failed = false } ∷ [])
    ∷ []

second_readable_polls :
    poll_fds second_readable 10
    ≡ some (
        ok (
          1,
          record { readable = false; failed = false }
              ∷ record { readable = true; failed = false }
              ∷ [],
        ))
unfolding poll_fds poll_loop
second_readable_polls = refl

-- A message of five bytes reaches the callback as its first four.
recv_from_peers_delivers_example :
    (demux' : KernelUdsDemux) × (recv_from_peers accepting 10 second_readable
        (λ fd. brought (1 ∷ 2 ∷ 3 ∷ 4 ∷ 5 ∷ []))
        two_peers
      ≡ some (ok status_delivered_one, (51, 1 ∷ 2 ∷ 3 ∷ 4 ∷ []) ∷ [], demux'))
recv_from_peers_delivers_example =
    recv_from_peers_delivers accepting (λ fd. brought (1 ∷ 2 ∷ 3 ∷ 4 ∷ 5 ∷ []))
      (record { addr = 51; socket = record small_socket { fd = 6 } }) (1 ∷ 2 ∷ 3 ∷ 4 ∷ 5 ∷ [])
      two_peers 10 second_readable 1 _ second_readable_polls (omega arith)
      (record { has = refl; some_bytes = omega arith; some_room = omega arith; taken = refl })
      (further refl refl (first refl))
