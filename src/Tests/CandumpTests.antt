-- ===== src/Tests/CandumpTests.antt =====
-- examples/candump.rs and examples/multireader.rs on the kernel of `Tests.Host`.
use mcanbus.Base.{
  replicate, inl, ℕ, ◌+◌, ◌%◌, ◌^◌, ◌≡◌, ◌↔◌, refl, arith, some, List, [], ◌∷◌, ◌++◌, length,
}
use mcanbus.Base.Results.{Result, ok, err}
use mcanbus.Examples.{codes}
use mcanbus.Examples.Candump
use mcanbus.Examples.Candump.Arguments.{dump_line}
use mcanbus.Examples.Cangen
use mcanbus.Examples.CommandLines.{command_line-dump_line}
use mcanbus.Examples.Cangen.Arguments.{command_line}
use mcanbus.Examples.Candump.Clock.{of_day, format_timestamp-of_day}
use mcanbus.Examples.Candump.Arrivals.{Hands, no_rounds, in_silence, on_flagged, on_arrival}
use mcanbus.Examples.Candump.Printing.{log_line, dump-line}
use mcanbus.Frame.Id.{from_wire}
use mcanbus.Frame.Wire.Decode.{data_of}
use mcanbus.Examples.Multireader.{run_worker}
use mcanbus.Examples.Multireader.Worker.{Pops, IsFifo, joined, run_worker-joined}
use mcanbus.Base.Text.{hex_text, format_hex}
use mcanbus.Base.Text.Decimal.{format_dec}
use mcanbus.Frame.Display.{display, display_id, display_kind}
use mcanbus.Frame.Data.{Frame, payload}
use mcanbus.Socket.Filter.{CanFilter}
use mcanbus.Socket.Kernel.{Message}
use mcanbus.Socket.Timestamp.{extract_timestamp_ns, best_of}
use mcanbus.Frame.Wire.Bytes.{u32_from_ne_bytes}
use mcanbus.Reader.{TrySend, sent}
use mcanbus.Reader.Subscriber.{RecvError, timed_out, Receivers, new_subscriber}
use mcanbus.Tests.Host.{Host, host}
use mcanbus.Tests.CangenTests.{fast, fast-IsArgs, idle, can0, dead}

abbrev two_filters : List CanFilter
two_filters = record { id = 0x7F0; mask = 0x7F0 } ∷ record { id = 0x123; mask = 0x7FF } ∷ []

clock_text :
    Candump.format_timestamp (86_399_000_001_000 + 86_400_000_000_000) ≡ codes "23:59:59.000001"
unfolding Candump.format_timestamp format_dec
clock_text = refl

format_timestamp-of_day_example :
    (Candump.format_timestamp 1_000 ≡ Candump.format_timestamp 86_400_000_001_999)
    ↔ (of_day 1_000 ≡ of_day 86_400_000_001_999)
format_timestamp-of_day_example = format_timestamp-of_day 1_000 86_400_000_001_999

command_line-dump_line_example :
    (Cangen.parse_args (command_line fast) ≡ ok fast)
    × (Candump.parse_args (dump_line (record { iface = codes "can0"; filter = some two_filters }))
        ≡ ok (record { iface = codes "can0"; filter = some two_filters }))
command_line-dump_line_example =
    command_line-dump_line fast (codes "can0") (some two_filters) fast-IsArgs (omega arith)

-- A remote request, the bytes of a frame, and then silence.
abbrev request : Message
request = record { bytes = 0x23 ∷ 1 ∷ 0 ∷ 0x40 ∷ replicate 12 0; control = [] }

abbrev message : Message
message = record {
  bytes = 0x23 ∷ 1 ∷ 0 ∷ 0 ∷ 2 ∷ 0 ∷ 0 ∷ 0 ∷ 0xde ∷ 0xad ∷ replicate 6 0;
  control = [];
}

abbrev busy : Host
busy = record idle { inbox = request ∷ message ∷ [] }

-- The clock and what is still to come.
abbrev left_at : ℕ → List Message → Host
left_at clock inbox = record idle { clock = clock; inbox = inbox }

abbrev stamped : Frame
stamped = record dead { timestamp_ns = some 9 }

abbrev arrived : Frame
arrived = data_of 0x123 2 0 (0xde ∷ 0xad ∷ replicate 6 0) (some 9)

same_frame : arrived ≡ stamped
unfolding from_wire
same_frame = refl

handed : Hands host can0 3 busy (arrived ∷ []) (left_at 10 [])
unfolding extract_timestamp_ns best_of u32_from_ne_bytes
handed =
    on_flagged 2 busy (left_at 8 (message ∷ [])) (left_at 10 []) request (arrived ∷ [])
      (omega arith) (omega arith) (inl refl) refl
      (on_arrival 1 (left_at 8 (message ∷ [])) (left_at 9 []) (left_at 10 []) message []
        (omega arith) (omega arith) refl refl refl
        (in_silence 0 11 (left_at 9 []) (left_at 10 []) (left_at 10 []) [] (inl refl) refl
          (no_rounds (left_at 10 []))))

dump-line_example :
    Candump.dump host can0 (codes "can0") 3 [] 0 busy
    ≡ ((ok 1, log_line (codes "can0") arrived ∷ []), left_at 10 [])
dump-line_example = dump-line host can0 (codes "can0") 3 busy (left_at 10 []) (arrived ∷ []) handed

line_text : Candump.line (codes "can0") stamped ≡ codes "(00:00:00.000000) can0  123#DEAD"
unfolding Candump.line Candump.format_timestamp format_dec display display_id display_kind hex_text
    format_hex payload
line_text = refl

-- One queue, a list of frames.
abbrev put : ℕ → Frame → List Frame → TrySend × List Frame
put queue frame frames = (sent, frames ++ frame ∷ [])

abbrev pop : List Frame → Result Frame RecvError × List Frame
pop [] = (err timed_out, [])
pop (frame ∷ frames) = (ok frame, frames)

abbrev one_queue : Receivers (List Frame)
one_queue = record {
  rx_recv = λ queue frames. pop frames;
  rx_recv_timeout = λ queue dur frames. pop frames;
  rx_try_recv = λ queue frames. pop frames;
  rx_len = λ queue frames. length frames;
}

pop-Pops : (frames : List Frame) → Pops frames (pop frames).0 (pop frames).1
pop-Pops [] = (refl, refl)
pop-Pops (frame ∷ frames) = refl

abbrev one_queue-IsFifo : IsFifo put one_queue
one_queue-IsFifo = record {
  content = λ queue frames. frames;
  takes = λ queue frame frames. refl;
  puts = λ queue frame frames. refl;
  gives = λ queue dur frames. pop-Pops frames;
  counts = λ queue frames. refl;
}

-- Three frames in the first of two rounds: one is left.
run_worker-joined_example :
    let ((report, taken), w') =
      run_worker put one_queue 0 ((dead ∷ stamped ∷ dead ∷ []) ∷ [] ∷ []) (new_subscriber 1 2) [] in
    (left : List Frame) × (taken ++ left ≡ joined ((dead ∷ stamped ∷ dead ∷ []) ∷ [] ∷ []))
    × (report.received ≡ 3 % 2 ^ 64)
    × (report.dropped ≡ 0)
    × (report.pending ≡ length left)
run_worker-joined_example =
    run_worker-joined put one_queue one_queue-IsFifo 0 1 2 ((dead ∷ stamped ∷ dead ∷ []) ∷ [] ∷ [])
      [] refl
