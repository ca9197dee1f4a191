-- ===== src/Tests/CangenTests.antt =====
-- examples/cangen.rs on the kernel of `Tests.Host`.
use mcanbus.Base.{
  ◌-◌, ℕ, ◌+◌, ◌*◌, ◌≤◌, ◌≡◌, refl, sym, ap, ◌∙◌, arith, false, none, some, List, [], ◌∷◌, ◌++◌,
  length, take-all, replicate,
}
use mcanbus.Base.Results.{Result, ok, err}
use mcanbus.Base.Text.{from_str_radix, scan, trim_pairs, same_text}
use mcanbus.Examples.{exit_status, Halt, panicked, codes}
use mcanbus.Examples.Cangen
use mcanbus.Examples.Cangen.Arguments.{IsArgs, command_line}
use mcanbus.Examples.Cangen.Pacing.{PaceTime, generate-Paced}
use mcanbus.Examples.Cangen.Bus.{Bus}
use mcanbus.Examples.Cangen.Order.{OnBus, generate-OnBus}
use mcanbus.Examples.Candump
use mcanbus.Examples.Ledger.{ProgramLedger, cangen-candump}
use mcanbus.Frame.Data.{Frame, classic, new_classic}
use mcanbus.Frame.Id.{standard, new_standard}
use mcanbus.Frame.Wire.{frame_bytes}
use mcanbus.Frame.Wire.Bytes.{little}
use mcanbus.Socket.Transfer.{Socket, send_batch}
use mcanbus.Tests.Host.{Host, host, host-KernelTime, host-Ledger, host-CallLedger}

abbrev sleep_nanos : ℕ → Host → Host
sleep_nanos nanos h = record h { clock = h.clock + nanos }

abbrev sent_count : Result ℕ ℕ → ℕ
sent_count (ok n) = n
sent_count (err e) = 0

sendmmsg_counts :
    (fd n : ℕ) (msgs : List (List ℕ)) (h h' : Host)
    → host.sendmmsg fd msgs h ≡ (ok n, h')
    → n ≡ length msgs
sendmmsg_counts fd n msgs h h' same = sym (ap (λ (r : Result ℕ ℕ × Host). sent_count r.0) same)

abbrev host-PaceTime : PaceTime host sleep_nanos
host-PaceTime = record {
  clock = host-KernelTime;
  sleeps = λ nanos h. omega arith;
  sendmmsg_counts = λ fd n msgs h h' same. omega (arith, sendmmsg_counts fd n msgs h h' same);
}

abbrev host-Bus : Bus host sleep_nanos
host-Bus = record {
  on_bus = λ h. h.outbox;
  write_sends = λ fd n bytes h h' same. sym (ap (λ (r : Result ℕ ℕ × Host). r.1.outbox) same);
  sendmmsg_sends = λ fd n msgs h h' same.
      sym (ap (λ (r : Result ℕ ℕ × Host). r.1.outbox) same)
      ∙ ap (λ (l : List (List ℕ)). h.outbox ++ l)
          (sym (take-all n msgs (omega (arith, sendmmsg_counts fd n msgs h h' same))));
  now_keeps = λ h. refl;
  sleep_keeps = λ nanos h. refl;
}

abbrev host-ProgramLedger : ProgramLedger host host-Ledger sleep_nanos
host-ProgramLedger = record {
  sleep_nanos_keeps = λ nanos h. refl;
  sendmmsg_keeps = λ fd msgs h. refl;
}

abbrev pub idle : Host
idle = record { open_fds = []; inbox = []; outbox = []; clock = 7; queues = λ tx. [] }

abbrev pub can0 : Socket
can0 = record { fd = 3; fd_rx_enabled = false }

-- `cangen can0 --rate 1000 --batch 2 --id 0x123 --data DEAD`.
abbrev pub fast : Cangen.Args
fast = record {
  iface = codes "can0";
  rate = 1000;
  batch = 2;
  id = some 0x123;
  payload = 0xDE ∷ 0xAD ∷ [];
}

pub fast-IsArgs : IsArgs fast
fast-IsArgs = record {
  some_rate = omega arith;
  some_batch = omega arith;
  rate_fits = omega arith;
  batch_fits = omega arith;
  id_fits = omega arith;
  bytes_fit = omega arith;
}

doc_line :
    Cangen.parse_args
      (codes "can0" ∷ codes "--id" ∷ codes "0x123" ∷ codes "--data" ∷ codes "DEADBEEF" ∷ [])
    ≡ ok (record (Cangen.default_args (codes "can0")) {
      id = some 0x123;
      payload = 0xDE ∷ 0xAD ∷ 0xBE ∷ 0xEF ∷ [];
    })
unfolding Cangen.parse_args Cangen.parse_loop Cangen.set_arg Cangen.id_arg Cangen.data_arg
    Cangen.parse_hex Cangen.byte_pairs from_str_radix scan trim_pairs same_text
doc_line = refl

abbrev pub dead : Frame
dead = record {
  id = standard 0x123;
  kind = classic;
  len = 2;
  data_buf = 0xDE ∷ 0xAD ∷ replicate 62 0;
  timestamp_ns = none;
}

-- Two rounds of two frames, each in 2 ms: the frames, and the clock.
abbrev after_two : Host
after_two = record idle {
  outbox =
      frame_bytes little dead
      ∷ frame_bytes little dead
      ∷ frame_bytes little dead
      ∷ frame_bytes little dead
      ∷ [];
  clock = 7 + 4_000_000;
}

abbrev paced_twice : Cangen.Pace
paced_twice = record { next_deadline = 7 + 4_000_000; sent = 4; seq = 4 }

two_rounds : Cangen.generate host sleep_nanos can0 fast 2 idle ≡ (ok paced_twice, after_two)
unfolding Cangen.generate Cangen.build_frame send_batch new_classic new_standard Cangen.fill
two_rounds = refl

-- A period of 2 ms for each of the two rounds.
generate-Paced_example :
    (paced_twice.sent ≤ 2 * fast.batch)
    × (7 ≤ after_two.clock)
    × (1_000_000_000 * paced_twice.sent ≤ fast.rate * (after_two.clock - 7 + 2))
generate-Paced_example =
    generate-Paced host sleep_nanos host-PaceTime can0 fast 2 idle after_two paced_twice
      (omega arith) (omega arith) two_rounds

generate-OnBus_example :
    OnBus host sleep_nanos host-Bus
      (λ fd n msgs h h' same. sendmmsg_counts fd n msgs h h' same)
      can0
      fast
      (omega arith)
      idle
      (2 * 2)
      (Cangen.generate host sleep_nanos can0 fast 2 idle)
generate-OnBus_example =
    generate-OnBus host sleep_nanos host-Bus
      (λ fd n msgs h h' same. sendmmsg_counts fd n msgs h h' same) can0 fast (omega arith) 2 idle

-- The arguments take any payload; one of nine bytes ends in a panic.
too_long :
    Cangen.generate host sleep_nanos can0 (record fast { payload = replicate 9 0 }) 2 idle
    ≡ (err panicked, idle)
unfolding Cangen.generate Cangen.build_frame new_classic new_standard Cangen.fill
too_long = refl

too_long_status :
    exit_status
      (Cangen.generate host sleep_nanos can0 (record fast { payload = replicate 9 0 }) 2 idle).0
    ≡ 101
too_long_status = ap (λ (r : Result Cangen.Pace Halt × Host). exit_status r.0) too_long

cangen-candump_example :
    ((Cangen.main host sleep_nanos (command_line fast) 2 idle).1.open_fds ≡ [])
    × ((Candump.main host (command_line fast) 2 idle).1.open_fds ≡ [])
cangen-candump_example =
    cangen-candump host sleep_nanos host-Ledger host-CallLedger host-ProgramLedger
      (command_line fast) 2 idle
