-- ===== src/Examples/Candump/Printing.antt =====
-- examples/candump.rs: the lines that are printed.
use mcanbus.Base.{
  ℕ, zero, suc, ◌+◌, ◌/◌, ◌%◌, ◌^◌, ◌<◌, ◌≡◌, refl, sym, ap, ap₂, ◌∙◌, arith, Option, none, some,
  List, [], ◌∷◌, ◌++◌, append_assoc, append-nil, map, length, drop,
}
use mcanbus.Base.Results.{Result, ok}
use mcanbus.Base.Text.{codes}
use mcanbus.Base.Text.Decimal.{format_dec}
use mcanbus.Examples.{Halt}
use mcanbus.Examples.Candump.{line, on_recv, dump, stamp_text, format_timestamp, Printed}
use mcanbus.Frame.Data.{Frame}
use mcanbus.Frame.Display.{display}
use mcanbus.Frame.Wire.Decoded.{word, byte_at}
use mcanbus.Io.{IoError}
use mcanbus.Socket.Kernel.{Kernel}
use mcanbus.Socket.Timestamp.{extract_timestamp_ns}
use mcanbus.Socket.Transfer.{Socket}
use mcanbus.Examples.Candump.Arrivals.{
  stamp, Hands, no_rounds, in_silence, on_short, on_flagged, on_arrival, recv-silence, recv-short,
  recv-message, passed_over, let_through,
}

-- The time of a day, to the microsecond.
abbrev pub clock_text : Option ℕ → List ℕ
clock_text none = codes "??:??:??.??????"
clock_text (some ns) =
    format_dec 2 (ns / 3_600_000_000_000 % 24)
    ++ (codes ":"
        ++ (format_dec 2 (ns / 60_000_000_000 % 60)
            ++ (codes ":"
                ++ (format_dec 2 (ns / 1_000_000_000 % 60)
                    ++ (codes "." ++ format_dec 6 (ns / 1_000 % 1_000_000))))))

-- `(10:11:12.123456) can0  123#DEAD`.
abbrev pub log_line : List ℕ → Frame → List ℕ
log_line iface frame =
    codes "("
    ++ (clock_text frame.timestamp_ns ++ (codes ") " ++ (iface ++ (codes "  " ++ display frame))))

stamp_text-clock_text : (stamp : Option ℕ) → stamp_text stamp ≡ clock_text stamp
unfolding stamp_text format_timestamp
stamp_text-clock_text none = refl
stamp_text-clock_text (some ns) =
    let h : ns / 1_000_000_000 / 3600 % 24 ≡ ns / 3_600_000_000_000 % 24 = omega arith in
    let m : ns / 1_000_000_000 / 60 % 60 ≡ ns / 60_000_000_000 % 60 = omega arith in
    let micros : ns % 1_000_000_000 / 1_000 ≡ ns / 1_000 % 1_000_000 = omega arith in
    rw (h, m, micros) refl

line-log_line : (iface : List ℕ) (frame : Frame) → line iface frame ≡ log_line iface frame
unfolding line
line-log_line iface frame =
    ap (λ (t : List ℕ). b'(' ∷ t ++ (b')' ∷ b' ' ∷ iface ++ (b' ' ∷ b' ' ∷ display frame)))
      (stamp_text-clock_text frame.timestamp_ns)

module _ (k : Kernel) (socket : Socket) (iface : List ℕ) where
  open k use {World, endian, libc}

  -- The rounds that are over, the lines that they have printed, and the count.
  abbrev Prints :
      List (List ℕ) → ℕ → List Frame → World → (Result ℕ Halt × List (List ℕ)) × World → Type 0
  Prints out count frames w' r =
      r ≡ ((ok ((count + length frames) % 2 ^ 64), out ++ map (log_line iface) frames), w')

  abbrev onward : ℕ → List (List ℕ) → ℕ → Result (Option Frame) IoError × World → Printed k
  onward rounds out count = on_recv k iface out count (dump k socket iface rounds)

  dump-Prints :
      (rounds : ℕ) (out : List (List ℕ)) (count : ℕ) {w w' : World} {frames : List Frame}
      → count < 2 ^ 64
      → Hands k socket rounds w frames w'
      → Prints out count frames w' (dump k socket iface rounds out count w)
  unfolding dump
  dump-Prints zero out count fits (no_rounds w) =
      ap₂ (λ (n : ℕ) (l : List (List ℕ)). ((ok n, l), w)) (omega arith) (sym (append-nil out))
  dump-Prints (suc rounds) out count fits (in_silence _ errno w w₁ w' frames quiet silent h) =
      ap (onward rounds out count) (recv-silence k socket errno w w₁ quiet silent)
      ∙ dump-Prints rounds out count fits h
  dump-Prints (suc rounds) out count fits (on_short _ w w₁ w' msg frames short came h) =
      ap (onward rounds out count) (recv-short k socket msg w w₁ short came)
      ∙ dump-Prints rounds out count fits h
  dump-Prints (suc rounds) out count fits (on_flagged _ w w₁ w' msg frames bytes long bit came h) =
      ap (onward rounds out count) (
        recv-message k socket msg w w₁ bytes long came
        ∙ ap (λ (o : Option Frame). (ok o, (stamp k (extract_timestamp_ns libc msg.control) w₁).1))
            (passed_over (word endian msg.bytes) (byte_at msg.bytes 4) (drop 8 msg.bytes) _ bit))
      ∙ dump-Prints rounds out count fits h
  dump-Prints (suc rounds) out count fits
        (on_arrival _ w w₁ w' msg frames bytes long no_rtr no_err came h) =
      ap (onward rounds out count) (
        recv-message k socket msg w w₁ bytes long came
        ∙ ap (λ (o : Option Frame). (ok o, (stamp k (extract_timestamp_ns libc msg.control) w₁).1))
            (let_through (word endian msg.bytes) (byte_at msg.bytes 4) (drop 8 msg.bytes) _ no_rtr
              no_err))
      ∙ (dump-Prints rounds _ ((count + 1) % 2 ^ 64) (omega arith) h
          ∙ ap₂ (λ (n : ℕ) (l : List (List ℕ)). ((ok n, l), w')) (omega arith)
              (ap (λ (l : List ℕ). (out ++ l ∷ []) ++ map (log_line iface) frames)
                  (line-log_line iface _)
                ∙ append_assoc out (_ ∷ []) (map (log_line iface) frames)))

  -- Whatever the kernel hands over, candump prints one line for each data frame, in the order of
  -- arrival: its time of day in brackets, the name of the interface and the text of the frame. It
  -- counts them, and what is too short, a remote request or an error frame leaves no trace, nor
  -- does a receive that times out.
  pub dump-line :
      (rounds : ℕ) (w w' : World) (frames : List Frame)
      → Hands k socket rounds w frames w'
      → dump k socket iface rounds [] 0 w
        ≡ ((ok (length frames % 2 ^ 64), map (log_line iface) frames), w')
  dump-line rounds w w' frames h =
      dump-Prints rounds [] 0 (omega arith) h
      ∙ ap (λ (n : ℕ). ((ok n, map (log_line iface) frames), w')) (omega arith)
