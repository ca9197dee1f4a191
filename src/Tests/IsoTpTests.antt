-- ===== src/Tests/IsoTpTests.antt =====
-- mcanbus/src/isotp.rs at a request and a response of nineteen bytes.
use mcanbus.Base.{ℕ, ◌≡◌, refl, none, some, List, [], ◌∷◌, ◌++◌, arith, replicate}
use mcanbus.Base.Results.{ok, err}
use mcanbus.Io.{kind, timed_out}
use mcanbus.IsoTp.FlowControl.{wait_for_fc-grant, wait_for_fc-timed_out}
use mcanbus.Frame.Id.{CanId, extended}
use mcanbus.Frame.Data.{Frame, classic, payload, new_classic}
use mcanbus.IsoTp.Encode.{default_options, encode_ff_frame, encode_cf_frame, encode_fc_frame}
use mcanbus.IsoTp.Receive.{wait_for_fc}
use mcanbus.IsoTp.Send.{transmit, send_fc}
use mcanbus.IsoTp.Receive.{
  receive_response, accept, recv_or_time_out, recv_with_id, collect, on_first, on_cf,
}
use mcanbus.IsoTp.Receive.Arrivals.{Arrives, hit, skip}
use mcanbus.IsoTp.RoundTrip.{Answers, multiple, single, receive_response-Answers}
use mcanbus.Channel.Laws.{Ended}
use mcanbus.IsoTp.Encode.{Options, encode_sf_frame}
use mcanbus.IsoTp.Send.{send_sf}
use mcanbus.IsoTp.Request.{request, send_request}
use mcanbus.IsoTp.Exchange.{request-Answers}
use mcanbus.IsoTp.Termination.{request-Ended}
use mcanbus.Tests.Script.{Script, scripted, scripted-IsTimed}

abbrev tester : CanId
tester = extended 0x18da00f9

abbrev ecu : CanId
ecu = extended 0x18daf900

-- A frame of eight bytes from the ECU.
abbrev from_ecu : List ℕ → Frame
from_ecu body = record {
  id = ecu;
  kind = classic;
  len = 8;
  data_buf = body ++ replicate 56 0;
  timestamp_ns = none;
}

abbrev response : List ℕ
response = 0x5a ∷ 0x90 ∷ b'Y' ∷ b'S' ∷ b'2' ∷ b'R' ∷ b'6' ∷ b'X' ∷ b'4' ∷ b'0' ∷ []

abbrev first : List ℕ
first = 0x10 ∷ 10 ∷ 0x5a ∷ 0x90 ∷ b'Y' ∷ b'S' ∷ b'2' ∷ b'R' ∷ []

abbrev second : List ℕ
second = 0x21 ∷ b'6' ∷ b'X' ∷ b'4' ∷ b'0' ∷ 0xaa ∷ 0xaa ∷ 0xaa ∷ []

-- Nothing, a frame of another node, the First Frame and the Consecutive Frame are to arrive.
abbrev start : Script
start = record {
  clock = 0;
  inbox =
      none
      ∷ some (record (from_ecu second) { id = tester })
      ∷ some (from_ecu first)
      ∷ some (from_ecu second)
      ∷ [];
  sent = [];
}

-- The loops run.
receives : (receive_response scripted ecu 100 tester default_options 101 start).0 ≡ ok response
unfolding receive_response payload recv_or_time_out recv_with_id accept on_first send_fc transmit
    new_classic encode_fc_frame collect on_cf
receives = refl

abbrev flow_control : Frame
flow_control = record {
  id = tester;
  kind = classic;
  len = 8;
  data_buf = 0x30 ∷ 0 ∷ 0 ∷ replicate 5 0xcc ++ replicate 56 0;
  timestamp_ns = none;
}

-- When the First Frame has arrived, and when the Flow Control has been sent.
abbrev waiting : Script
waiting = record { clock = 3; inbox = some (from_ecu second) ∷ []; sent = [] }

abbrev answered : Script
answered = record waiting { sent = flow_control ∷ [] }

abbrev finished : Script
finished = record answered { clock = 4; inbox = [] }

first-Arrives : Arrives scripted ecu 100 start (from_ecu first) waiting
unfolding accept
first-Arrives = skip none (omega arith) refl refl (
    skip (some (record (from_ecu second) { id = tester })) (omega arith) refl refl
      (hit (some (from_ecu first)) (omega arith) refl refl))

second-Arrives : Arrives scripted ecu 100 answered (from_ecu second) finished
unfolding accept
second-Arrives = hit (some (from_ecu second)) (omega arith) refl refl

response-Answers :
    Answers scripted ecu 100 scripted-IsTimed tester default_options response start finished
unfolding payload encode_ff_frame encode_cf_frame encode_fc_frame send_fc transmit new_classic
response-Answers =
    multiple (from_ecu first) 0xaa waiting answered (omega arith) (omega arith) first-Arrives refl
      refl (from_ecu second, finished, second-Arrives, refl, refl)

receive_response-Answers_example :
    receive_response scripted ecu 100 tester default_options 101 start ≡ (ok response, finished)
receive_response-Answers_example =
    receive_response-Answers scripted ecu 100 scripted-IsTimed tester default_options 101 response
      start finished (omega arith) response-Answers

-- Two frames for a block of one.
abbrev two_chunks : List ℕ
two_chunks = 1 ∷ 2 ∷ 3 ∷ 4 ∷ 5 ∷ 6 ∷ 7 ∷ 8 ∷ []

-- A response that does not come is waited for until the deadline.
abbrev silent : Script
silent = record { clock = 0; inbox = []; sent = [] }

request-Ended_example :
    Ended
      (request scripted tester ecu (0x22 ∷ 0xf1 ∷ 0x90 ∷ []) default_options 1000000001 silent).0
request-Ended_example =
    request-Ended scripted scripted-IsTimed tester ecu (0x22 ∷ 0xf1 ∷ 0x90 ∷ []) default_options
      1000000001 silent (omega arith)

-- A short request and its short answer.
abbrev question : List ℕ
question = 0x22 ∷ 0xf1 ∷ 0x90 ∷ []

abbrev reply : List ℕ
reply = 0x62 ∷ 0xf1 ∷ []

abbrev quick : Options
quick = record default_options { timeout = 100 }

abbrev asking : Script
asking = record {
  clock = 0;
  inbox = some (from_ecu (0x02 ∷ 0x62 ∷ 0xf1 ∷ replicate 5 0xaa)) ∷ [];
  sent = [];
}

abbrev asked : Script
asked = record asking {
  sent = record (from_ecu (0x03 ∷ 0x22 ∷ 0xf1 ∷ 0x90 ∷ replicate 4 0xcc)) { id = tester } ∷ [];
}

abbrev told : Script
told = record asked { clock = 1; inbox = [] }

reply-Answers : Answers scripted ecu 100 scripted-IsTimed tester quick reply asked told
unfolding payload encode_sf_frame accept
reply-Answers =
    single (from_ecu (0x02 ∷ 0x62 ∷ 0xf1 ∷ replicate 5 0xaa)) 0xaa (omega arith) (omega arith)
      (hit (some (from_ecu (0x02 ∷ 0x62 ∷ 0xf1 ∷ replicate 5 0xaa))) (omega arith) refl refl) refl

question_sent : send_request scripted tester ecu question quick 101 100 asking ≡ (ok tt, asked)
unfolding send_request send_sf transmit new_classic encode_sf_frame
question_sent = refl

request-Answers_example : request scripted tester ecu question quick 101 asking ≡ (ok reply, told)
request-Answers_example =
    request-Answers scripted scripted-IsTimed tester ecu question quick 101 reply asking asked told
      (omega arith) (omega arith) (omega arith) question_sent reply-Answers

-- The ECU asks to wait, and asks again or grants the sending of blocks of eight frames.
abbrev asks_to_wait : Frame
asks_to_wait = from_ecu (0x31 ∷ 8 ∷ 20 ∷ replicate 5 0xaa)

abbrev grants : Frame
grants = from_ecu (0x30 ∷ 8 ∷ 20 ∷ replicate 5 0xaa)

abbrev patient : Options
patient = record default_options { max_waits = 1 }

abbrev waited : Frame → Script
waited last = record { clock = 0; inbox = some asks_to_wait ∷ some last ∷ []; sent = [] }

abbrev one_left : Frame → Script
one_left last = record { clock = 1; inbox = some last ∷ []; sent = [] }

abbrev all_read : Script
all_read = record { clock = 2; inbox = []; sent = [] }

wait-Arrives : (last : Frame) → Arrives scripted ecu 100 (waited last) asks_to_wait (one_left last)
unfolding accept
wait-Arrives last = hit (some asks_to_wait) (omega arith) refl refl

grants-Arrives : Arrives scripted ecu 100 (one_left grants) grants all_read
unfolding accept
grants-Arrives = hit (some grants) (omega arith) refl refl

second_wait-Arrives : Arrives scripted ecu 100 (one_left asks_to_wait) asks_to_wait all_read
unfolding accept
second_wait-Arrives = hit (some asks_to_wait) (omega arith) refl refl

wait_for_fc-grant_example :
    wait_for_fc scripted ecu 100 patient 101 (waited grants) ≡ (ok (8, 20), all_read)
unfolding payload encode_fc_frame
wait_for_fc-grant_example =
    wait_for_fc-grant 8 20 0xaa scripted ecu 100 scripted-IsTimed patient 1 101 (waited grants)
      all_read (omega arith) (omega arith) (omega arith)
      (
        asks_to_wait,
        one_left grants,
        wait-Arrives grants,
        refl,
        (grants, all_read, grants-Arrives, refl, refl),
      )

wait_for_fc-timed_out_example :
    wait_for_fc scripted ecu 100 patient 101 (waited asks_to_wait)
    ≡ (err (kind timed_out), all_read)
unfolding payload encode_fc_frame
wait_for_fc-timed_out_example =
    wait_for_fc-timed_out 8 20 0xaa scripted ecu 100 scripted-IsTimed patient 101
      (waited asks_to_wait) all_read (omega arith) (omega arith)
      (
        asks_to_wait,
        one_left asks_to_wait,
        wait-Arrives asks_to_wait,
        refl,
        (asks_to_wait, all_read, second_wait-Arrives, refl, refl),
      )
