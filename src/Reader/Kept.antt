-- ===== src/Reader/Kept.antt =====
-- mcanbus/src/reader.rs: what its thread leaves alone when it reads from the socket.
use mcanbus.Base.{
  ℕ, ◌+◌, ◌≡◌, refl, ◌∙◌, either_branch, ltb, ◌==◌, ◌||◌, min, set, Option, none, some, List, [],
  ◌∷◌, length,
}
use mcanbus.Base.Results.{Result, ok, err}
use mcanbus.Consts.{can_frame_size, canfd_frame_size}
use mcanbus.Frame.Data.{Frame}
use mcanbus.Frame.Wire.{decode_wire}
use mcanbus.Io.{IoError}
use mcanbus.Socket.Kernel.{Kernel, Message}
use mcanbus.Socket.Timestamp.{extract_timestamp_ns}
use mcanbus.Socket.Transfer.{
  Socket, recv_batch, batch_received, deliver, only_data, max_batch, timestamp_or_now, recv_failed,
  as_u64,
}

-- What is observed of the world, and the calls that do not change it.
pub record ReadsKeep (k : Kernel) {X : Type 0} (observe : k.World → X) : Type 0 where
  pub recvmmsg_keeps :
      (fd count size : ℕ) (w : k.World) → observe (k.recvmmsg fd count size w).1 ≡ observe w
  pub system_time_keeps : (w : k.World) → observe (k.system_time w).1 ≡ observe w
  pub sleep_keeps : (ms : ℕ) (w : k.World) → observe (k.sleep ms w) ≡ observe w

module _ (k : Kernel) {X : Type 0} (observe : k.World → X) (reads : ReadsKeep k observe) where
  open k use {World, endian, libc, recvmmsg, system_time}
  open reads use {recvmmsg_keeps, system_time_keeps}

  timestamp_or_now-keeps :
      (msg : Message) (w : World) → observe (timestamp_or_now k msg w).1 ≡ observe w
  unfolding timestamp_or_now
  timestamp_or_now-keeps msg w = judged (extract_timestamp_ns libc msg.control)
    where
      judged :
          (o : Option ℕ)
          → observe
              (elim o as (λ p. Option ℕ × World) [
                | none ↦ (as_u64 (system_time w).0, (system_time w).1)
                | some ns ↦ (some ns, w)
              ]).1
            ≡ observe w
      judged none = system_time_keeps w
      judged (some ns) = refl

  deliver-keeps :
      (msgs : List Message) (delivered : ℕ) (out : List Frame) (w : World)
      → observe (deliver k msgs delivered out w).1 ≡ observe w
  unfolding deliver
  deliver-keeps [] delivered out w = refl
  deliver-keeps (msg ∷ msgs) delivered out w =
      either_branch (λ (r : (ℕ × List Frame) × World). observe r.1 ≡ observe w)
        (ltb (length msg.bytes) can_frame_size) (deliver-keeps msgs delivered out w)
        (decoded (only_data (decode_wire endian msg.bytes (timestamp_or_now k msg w).0))
            (λ n out' w₁. deliver-keeps msgs n out' w₁)
          ∙ timestamp_or_now-keeps msg w)
    where
      decoded :
          (o : Option Frame)
          → ((n : ℕ) (out' : List Frame) (w₁ : World)
              → observe (deliver k msgs n out' w₁).1 ≡ observe w₁)
          → observe
              (elim o as (λ p. (ℕ × List Frame) × World) [
                | none ↦ deliver k msgs delivered out (timestamp_or_now k msg w).1
                | some frame ↦
                    deliver k msgs
                      (delivered + 1)
                      (set out delivered frame)
                      (timestamp_or_now k msg w).1
              ]).1
            ≡ observe (timestamp_or_now k msg w).1
      decoded none later = later _ _ _
      decoded (some frame) later = later _ _ _

  pub recv_batch-keeps :
      (socket : Socket) (out : List Frame) (w : World)
      → observe (recv_batch k socket out w).1 ≡ observe w
  unfolding recv_batch batch_received recv_failed
  recv_batch-keeps socket out w =
      either_branch (λ (r : Result (ℕ × List Frame) IoError × World). observe r.1 ≡ observe w)
        (length out == 0) refl
        (delivered (recvmmsg socket.fd (min (length out) max_batch) canfd_frame_size w)
          ∙ recvmmsg_keeps socket.fd (min (length out) max_batch) canfd_frame_size w)
    where
      delivered :
          (r : Result (List Message) ℕ × World) → observe (batch_received k out r).1 ≡ observe r.1
      delivered (ok msgs, w₁) = deliver-keeps msgs 0 out w₁
      delivered (err errno, w₁) =
          either_branch (λ (r : Result (ℕ × List Frame) IoError × World). observe r.1 ≡ observe w₁)
            (errno == libc.eagain || errno == libc.eintr) refl refl
