-- ===== src/FileTransfer/Receive/Tests.antt =====
-- A run of the receiver on a small file, and its theorems at concrete inputs.
use thincan.Common.{ℕ, ◌≡◌, refl, true, List, [], ◌∷◌, ◌++◌, ok, take, replicate, arith}
use thincan.FileTransfer.Messages.{FileReq, sha256}
use thincan.FileTransfer.Receive.{
  World, request, ChunkEvent, arrived, check_request, Transfer, negotiated_chunk_size,
  wait_for_transfer_chunk, finished, accepted_result,
}
use thincan.FileTransfer.Receive.Negotiation.{IsAgreed, check_request-IsAgreed}
use thincan.FileTransfer.Receive.Loop.{
  recv_file, chunk_step, chunk_loop, recv_request, recv_transfer, write_chunk,
}
use thincan.FileTransfer.Receive.NoAlloc.{recv_file_no_alloc}
use thincan.FileTransfer.Receive.NoAlloc.Capacity.{recv_file_no_alloc-recv_file}
use thincan.FileTransfer.Receive.Loop.Trace.{written}
use thincan.FileTransfer.Receive.Loop.Complete.{IsCalm, chunks}
use thincan.FileTransfer.Receive.Loop.Delivered.{recv_file_delivers}
use thincan.Common.Bytes.{bytes_eq}
use thincan.FileTransfer.Receive.Loop.Results.{Promise, recv_file-Promise}

-- A store and a bus that never fail.
abbrev calm : World (Unit {0})
calm = record {
  send_ok = λ trace a. true;
  begin_write = λ trace id n. ok tt;
  write_at = λ trace offset bytes. ok tt;
  commit = λ trace. ok tt;
}

-- A stand-in for SHA-256: the first 32 bytes of the file and of zeros behind it.
abbrev digest : List ℕ → List ℕ
digest bytes = take 32 (bytes ++ replicate 32 0)

abbrev file : List ℕ
file = 1 ∷ 2 ∷ 3 ∷ []

abbrev req : FileReq
req = record {
  transfer_id = 7;
  total_len = 3;
  file_metadata = 5 ∷ [];
  sender_max_chunk_size = 2;
  file_hash_algo = ok sha256;
  file_hash = digest file;
}

abbrev chunk : ℕ → List ℕ → ChunkEvent
chunk offset bytes = arrived 7 (ok (record { transfer_id = 7; offset = offset; bytes = bytes }))

abbrev transfer : Transfer
transfer = record {
  transfer_id = 7;
  total_len = 3;
  sender_max_chunk_size = 2;
  negotiated = 2;
  metadata = 5 ∷ [];
  expected_hash = digest file;
}

checked : check_request 64 req ≡ ok transfer
unfolding check_request
checked = refl

check_request-IsAgreed_example : IsAgreed 64 req transfer
check_request-IsAgreed_example = check_request-IsAgreed 64 req transfer checked

recv_file-Promise_example :
    let r = recv_file calm digest 64 (request req) (chunk 0 (1 ∷ 2 ∷ []) ∷ chunk 2 (3 ∷ []) ∷ []) in
    Promise digest req r.0 r.1
recv_file-Promise_example =
    recv_file-Promise calm digest 64 req (chunk 0 (1 ∷ 2 ∷ []) ∷ chunk 2 (3 ∷ []) ∷ [])
      (omega arith)

abbrev two_chunks : List ChunkEvent
two_chunks = chunk 0 (1 ∷ 2 ∷ []) ∷ chunk 2 (3 ∷ []) ∷ []

recv_file_no_alloc-recv_file_example :
    recv_file_no_alloc calm digest 2 16 64 (request req) two_chunks
    ≡ recv_file calm digest 64 (request req) two_chunks
unfolding negotiated_chunk_size
recv_file_no_alloc-recv_file_example =
    recv_file_no_alloc-recv_file calm digest 2 16 64 req two_chunks (omega arith) (omega arith)
      (omega arith) (omega arith, (omega arith, tt))

-- The file is received: three bytes are written and committed.
received_all :
    (recv_file calm digest 64 (request req) two_chunks).1 ≡ finished (accepted_result transfer 3)
unfolding recv_file chunk_step chunk_loop recv_request recv_transfer write_chunk check_request
    wait_for_transfer_chunk bytes_eq
received_all = refl

calm-IsCalm : IsCalm calm
calm-IsCalm = record {
  sends = λ trace a. refl;
  begins = λ trace id n. refl;
  writes = λ trace offset bytes. refl;
  commits = λ trace. refl;
}

abbrev parts : List (List ℕ)
parts = (1 ∷ 2 ∷ []) ∷ (3 ∷ []) ∷ []

recv_file_delivers_example :
    let r = recv_file calm digest 64 (request req) (chunks 7 0 parts) in
    (r.1 ≡ finished (accepted_result transfer 3)) × (written r.0 ≡ file)
recv_file_delivers_example =
    recv_file_delivers calm digest 64 req transfer parts calm-IsCalm checked (omega arith)
      (omega arith) ((omega arith, omega arith), ((omega arith, omega arith), tt)) refl refl
