-- ===== src/IsoDep/Tests.antt =====
-- The listener with the echoing engine: whole exchanges, and each theorem at one of them.
use dfc_flipper.Base.{
  ℕ, List, replicate, xor, arith, ◌∷◌, true, All, [], refl, ◌++◌, length, ◌≡◌, false, ◌≤◌, some,
  toggle, map,
}
use dfc_flipper.IsoDep.Invariant.{IsValid}
use dfc_flipper.IsoDep.State.{Dfc, block_of, iso_dep_frame_max}
use dfc_flipper.IsoDep.Links.{send_links, next_pcb, next_rest}
use dfc_flipper.IsoDep.Chain.{send_links-handle_apdu}
use dfc_flipper.ByteBuf.{ByteBuf, append_to, reset}
use dfc_flipper.IsoDep.Send.{
  send_i_response, send_next_i_response, begin_response, advance_response, send_frame,
}
use dfc_flipper.IsoDep.Receive.{
  receive, receive_block, ListenerEvent, received_data, receive_i, halted, receive_numbered,
  receive_apdu,
}
use dfc_flipper.Engine.Echo.{echo, echo-Laws}
use dfc_flipper.IsoDep.Frames.{Pending}
use dfc_flipper.IsoDep.Session.{started-IsValid, run, started, run-IsSound}
use dfc_flipper.Events.{frames, transmit, notify_all}
use dfc_flipper.IsoDep.Replay.{IsCommand, receive-replayed}
use dfc_flipper.IsoDep.Ack.{payload, deliver}
use dfc_flipper.IsoDep.Delivery.{send_i_response-delivers}
use dfc_flipper.IsoDep.Apdu.{handle_apdu, unwrap_command, run_native, with_prefix, handle_bare}
use dfc_flipper.IsoDep.Pcd.{Request, answers, answer, peer_of, converse, number_after}
use dfc_flipper.IsoDep.Pcd.Conversation.{IsBetween, converse-answers}
use dfc_flipper.IsoDep.Respond.{response_to, execute, decode, run_handler}
use dfc_flipper.IsoDep.Pcd.Opening.{converse-started}
use dfc_flipper.IsoDep.Pcd.Commands.{IsFitting}
use dfc_flipper.IsoDep.Lost.{receive-stale}
use dfc_flipper.IsoDep.Nak.{nak_of}
use dfc_flipper.IsoDep.Lossy.{transact, block_lost, answer_lost, passes, transact-receive}
use dfc_flipper.IsoDep.Lossy.Talk.{request_of, converse_over, Attempt}
use dfc_flipper.IsoDep.Lossy.Conversing.{converse_over-answers}

abbrev empty_buffer : ByteBuf
empty_buffer = record { octets = replicate 128 0; size_bytes = 0 }

abbrev idle : Dfc ℕ
idle = started echo 0 empty_buffer

idle-IsValid : IsValid echo idle
idle-IsValid = started-IsValid echo 0 (omega arith)

-- A native command of two octets in one block, its answer, and the same block once more.
abbrev select_pcb : ℕ
select_pcb = 0x02

abbrev select_rest : List ℕ
select_rest = 0x5A ∷ 0x01 ∷ []

answer_first :
    (receive echo true idle (select_pcb ∷ select_rest)).1
    ≡ transmit (0x02 ∷ 0x00 ∷ 0x5A ∷ 0x01 ∷ []) ∷ []
unfolding receive receive_block receive_i receive_numbered receive_apdu handle_apdu handle_bare
    unwrap_command run_native with_prefix append_to send_i_response send_next_i_response
    begin_response advance_response send_frame block_of notify_all reset xor
answer_first = refl

abbrev events : List ListenerEvent
events = received_data true (select_pcb ∷ select_rest) ∷ halted ∷ []

run-IsSound_example :
    IsValid echo (run echo idle events).0
    × All
        (λ out. (length (frames out) ≤ 1) × All (λ f. length f ≤ iso_dep_frame_max) (frames out))
        (run echo idle events).1
run-IsSound_example = run-IsSound echo echo-Laws events idle-IsValid

select-IsCommand : IsCommand echo idle select_pcb select_rest
unfolding block_of xor
select-IsCommand = record {
  session = record {
    octet = omega arith;
    i_block = refl;
    no_nad = refl;
    long_enough = omega arith;
    same_cid = refl;
  };
  numbered = refl;
  unchained = refl;
  filled = omega arith;
  collected = refl;
  idle = refl;
}

receive-replayed_example :
    let (t, out) = receive echo true idle (select_pcb ∷ select_rest) in
    (frames out ≡ t.last_frame ∷ [])
    × (receive echo true t (select_pcb ∷ select_rest) ≡ (t, transmit t.last_frame ∷ []))
receive-replayed_example =
    receive-replayed echo echo-Laws select_pcb select_rest idle-IsValid select-IsCommand

-- A response of 100 octets behind its PCB takes two frames.
abbrev long_response : Dfc ℕ
long_response = record idle {
  tx_buffer = record { octets = 0x02 ∷ replicate 127 0x55; size_bytes = 101 };
}

long_response-Pending : Pending echo long_response
long_response-Pending = record {
  valid = record {
    buffer = omega arith;
    frame_bound = omega arith;
    expected_bit = omega arith;
    picc_bit = omega arith;
    command_bound = omega arith;
    offset_bound = omega arith;
  };
  whole = omega arith;
  octet = omega arith;
}

send_i_response-delivers_example :
    let (t, out) = send_i_response echo true long_response in
    payload echo (frames out ++ deliver echo 101 t) ≡ replicate 100 0x55
send_i_response-delivers_example = send_i_response-delivers echo echo-Laws long_response-Pending

-- A command in three blocks.
send_links-handle_apdu_example :
    let t = send_links echo true idle ((1 ∷ 2 ∷ []) ∷ (3 ∷ []) ∷ []) in
    let pcb = next_pcb echo true t false in
    let rest = next_rest echo true t (4 ∷ []) in
    (t ≡ record idle { command = 1 ∷ 2 ∷ 3 ∷ []; expected_pcd_block = 0 })
    × (receive echo true t (pcb ∷ rest)
        ≡ handle_apdu echo true
            (record t { command = [] })
            (block_of echo pcb rest)
            (1 ∷ 2 ∷ 3 ∷ 4 ∷ []))
send_links-handle_apdu_example =
    send_links-handle_apdu echo echo-Laws true (1 ∷ 2 ∷ []) ((3 ∷ []) ∷ []) (4 ∷ []) idle-IsValid
      refl refl (omega arith) (omega arith) (omega arith)

-- Two commands: one in three blocks, and one of 70 octets whose response takes two frames.
abbrev requests : List Request
requests =
    record { fields = (1 ∷ 2 ∷ []) ∷ (3 ∷ []) ∷ []; last = 4 ∷ [] }
    ∷ record { fields = replicate 40 7 ∷ []; last = replicate 30 8 }
    ∷ []

first-IsFitting : IsFitting echo (record { fields = (1 ∷ 2 ∷ []) ∷ (3 ∷ []) ∷ []; last = 4 ∷ [] })
first-IsFitting = record { filled = omega arith; last_filled = omega arith; fits = omega arith }

second-IsFitting : IsFitting echo (record { fields = replicate 40 7 ∷ []; last = replicate 30 8 })
second-IsFitting = record { filled = omega arith; last_filled = omega arith; fits = omega arith }

idle-IsBetween : IsBetween echo false 0 (peer_of idle) idle
idle-IsBetween = record {
  ready = record { valid = idle-IsValid; idle = refl; vacant = refl };
  peer = refl;
  same_use = refl;
  same_cid = refl;
  alternates = refl;
}

-- The echoed commands, each behind the status 00, and the number of the next block: the second
-- response took two frames.
echoed : answers echo false 0 (peer_of idle) requests ≡ (
  record {
    emulator = 2;
    tx_buffer = record {
      octets = (0x02 ∷ 0x00 ∷ []) ++ (replicate 40 7 ++ (replicate 30 8 ++ replicate 56 0));
      size_bytes = 72;
    };
    number = 0;
  },
  (0x00 ∷ 1 ∷ 2 ∷ 3 ∷ 4 ∷ []) ∷ (0x00 ∷ replicate 40 7 ++ replicate 30 8) ∷ [],
)
unfolding answers answer response_to execute decode run_handler append_to number_after notify_all
    reset
echoed = refl

converse-answers_example :
    let (q, responses) = answers echo false 0 (peer_of idle) requests in
    (t : Dfc ℕ) × (converse echo false 0 0 idle requests ≡ some (q.number, t, responses))
    × IsBetween echo false 0 q t
converse-answers_example =
    converse-answers echo echo-Laws false 0 requests idle-IsBetween
      (first-IsFitting, (second-IsFitting, tt))

converse-started_example :
    let (q, responses) = answers echo true 5 (peer_of idle) requests in
    (t : Dfc ℕ) × (converse echo true 5 0 idle requests ≡ some (q.number, t, responses))
    × IsBetween echo true 5 q t
converse-started_example =
    converse-started echo echo-Laws true 5 0
      (record { fields = (1 ∷ 2 ∷ []) ∷ (3 ∷ []) ∷ []; last = 4 ∷ [] })
      (record { fields = replicate 40 7 ∷ []; last = replicate 30 8 } ∷ []) (omega arith)
      (first-IsFitting, (second-IsFitting, tt))

-- The block is lost, then R(NAK), then the answer to R(NAK), then the answer to the block.
transact-receive_example :
    let (t, out) = receive echo true idle (select_pcb ∷ select_rest) in
    transact echo 0
      (select_pcb ∷ select_rest)
      (0xB2 ∷ [])
      (select_pcb ∷ select_rest)
      (block_lost ∷ block_lost ∷ answer_lost ∷ passes ∷ answer_lost ∷ [])
      idle
    ≡ (t, frames out)
transact-receive_example =
    transact-receive echo echo-Laws select_pcb select_rest
      (block_lost ∷ block_lost ∷ answer_lost ∷ passes ∷ answer_lost ∷ []) idle-IsValid
      select-IsCommand refl

-- A short command, and one whose response needs two frames.
abbrev attempts : List Attempt
attempts =
    record {
      command = 1 ∷ 2 ∷ 3 ∷ [];
      command_fates = answer_lost ∷ block_lost ∷ [];
      frame_fates = λ n. [];
    }
    ∷ record {
      command = replicate 70 7;
      command_fates = block_lost ∷ passes ∷ answer_lost ∷ [];
      frame_fates = λ n. answer_lost ∷ block_lost ∷ answer_lost ∷ [];
    }
    ∷ []

attempts-IsFitting : All (λ a. IsFitting echo (request_of a)) attempts
attempts-IsFitting = (
  record { filled = tt; last_filled = omega arith; fits = omega arith },
  (record { filled = tt; last_filled = omega arith; fits = omega arith }, tt),
)

converse_over-answers_example :
    let (q, responses) = answers echo false 0 (peer_of idle) (map request_of attempts) in
    (t : Dfc ℕ) × (converse_over echo false 0 0 idle attempts ≡ some (q.number, t, responses))
    × IsBetween echo false 0 q t
converse_over-answers_example =
    converse_over-answers echo echo-Laws false 0 attempts idle-IsBetween attempts-IsFitting

-- A session in which the last response was 03 00.
abbrev replied : Dfc ℕ
replied = record idle { last_response_valid = true; last_frame = 0x03 ∷ 0x00 ∷ [] }

replied-IsValid : IsValid echo replied
replied-IsValid = record {
  buffer = omega arith;
  frame_bound = omega arith;
  expected_bit = omega arith;
  picc_bit = omega arith;
  command_bound = omega arith;
  offset_bound = omega arith;
}

receive-stale_example :
    let t = send_links echo true replied ((1 ∷ 2 ∷ []) ∷ (3 ∷ []) ∷ []) in
    (t.command ≡ 1 ∷ 2 ∷ 3 ∷ [])
    × (receive echo true t (nak_of false (toggle t.expected_pcd_block) 0)
        ≡ (t, transmit (0x03 ∷ 0x00 ∷ []) ∷ []))
receive-stale_example =
    receive-stale echo echo-Laws (1 ∷ 2 ∷ []) ((3 ∷ []) ∷ []) replied-IsValid refl refl refl refl
      (omega arith) (omega arith) refl
