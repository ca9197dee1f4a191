-- ===== src/Frame/Data/Laws.antt =====
-- mcanbus/src/frame.rs: checked construction.
use mathlib.Core.Path.{subst}
use mcanbus.Base.{
  sym, Bool-cases, ltb, ltb→lt, ltb→le, inl, inr, ◌<◌, ℕ, ◌-◌, ◌%◌, ◌^◌, ◌<◌, ◌≤◌, ◌≡◌, refl, ap,
  none, List, ◌++◌, arith, drop-replicate, zero-add, le→ltb, lt→ltb, length, replicate, overwrite,
  IsBytes, All-append, All-replicate, length-append, length-replicate, take-append_length,
  drop-append_length,
}
use mcanbus.Base.Results.{Result, ok, err}
use mcanbus.Frame.Id.{CanId, IsCanId}
use mcanbus.Frame.Data.{
  FrameError, Frame, FdFlags, FrameKind, classic, fd, data_too_long, new_classic, new_fd, payload,
  IsFrame, IsClean, max_len, max_data_len, max_fd_data_len, flags_to_wire, flags_from_wire,
}

-- The frame that construction gives to a payload of a kind.
abbrev made : CanId → FrameKind → List ℕ → Frame
made id kind bytes = record {
  id = id;
  kind = kind;
  len = length bytes % 2 ^ 8;
  data_buf = overwrite 0 bytes (replicate max_fd_data_len 0);
  timestamp_ns = none;
}

-- What `Ok` promises for a payload: a well-formed frame with a zero rest that holds it.
pub record Holds (id : CanId) (kind : FrameKind) (bytes : List ℕ) (f : Frame) : Type 0 where
  pub same_id : f.id ≡ id
  pub same_kind : f.kind ≡ kind
  pub same_len : f.len ≡ length bytes
  pub no_timestamp : f.timestamp_ns ≡ none
  pub same_payload : payload f ≡ bytes
  pub well_formed : IsFrame f
  pub clean : IsClean f

module _ (id : CanId) (bytes : List ℕ) (fits : length bytes ≤ max_fd_data_len) where
  same_length : length bytes % 2 ^ 8 ≡ length bytes
  same_length = omega arith

  abbrev zeros : List ℕ
  zeros = replicate (max_fd_data_len - length bytes) 0

  buffer : overwrite 0 bytes (replicate max_fd_data_len 0) ≡ bytes ++ zeros
  buffer =
      rw zero-add
        (ap (λ (t : List ℕ). bytes ++ t) (drop-replicate (length bytes) max_fd_data_len 0))

  made-Holds :
      (kind : FrameKind)
      → IsCanId id
      → IsBytes bytes
      → length bytes ≤ max_len kind
      → Holds id kind bytes (made id kind bytes)
  unfolding payload
  made-Holds kind id_ok bytes_ok short = record {
    same_id = refl;
    same_kind = refl;
    same_len = same_length;
    no_timestamp = refl;
    same_payload = rw (same_length, buffer) (take-append_length (length bytes) bytes zeros refl);
    well_formed = record {
      id_fits = id_ok;
      len_fits = rw same_length short;
      buf_len = rw buffer (
          omega (
            arith,
            length-append bytes zeros,
            length-replicate {A = ℕ} (max_fd_data_len - length bytes) 0,
          ));
      buf_bytes = rw buffer (
          All-append (λ b. b < 256) bytes zeros bytes_ok
            (All-replicate (λ b. b < 256) (max_fd_data_len - length bytes) 0 (omega arith)));
    };
    clean = rw (same_length, buffer) (drop-append_length (length bytes) bytes zeros refl);
  }

-- `new_classic` takes exactly the payloads of at most 8 bytes, and reports the others' length.
pub new_classic_lem :
    (id : CanId) (bytes : List ℕ)
    → IsCanId id
    → IsBytes bytes
    → (length bytes ≤ max_data_len
        → (f : Frame) × (new_classic id bytes ≡ ok f) × Holds id classic bytes f)
      × (max_data_len < length bytes
          → new_classic id bytes ≡ err (data_too_long (length bytes) max_data_len))
unfolding new_classic
new_classic_lem id bytes id_ok bytes_ok = (
  λ short. (
    made id classic bytes,
    rw (le→ltb max_data_len (length bytes) short) refl,
    made-Holds id bytes (omega arith) classic id_ok bytes_ok short,
  ),
  λ long. rw (lt→ltb max_data_len (length bytes) long) refl,
)

-- `new_fd` takes exactly the payloads of at most 64 bytes, and reports the others' length.
pub new_fd_lem :
    (id : CanId) (bytes : List ℕ) (flags : FdFlags)
    → IsCanId id
    → IsBytes bytes
    → (length bytes ≤ max_fd_data_len
        → (f : Frame) × (new_fd id bytes flags ≡ ok f) × Holds id (fd flags) bytes f)
      × (max_fd_data_len < length bytes
          → new_fd id bytes flags ≡ err (data_too_long (length bytes) max_fd_data_len))
unfolding new_fd
new_fd_lem id bytes flags id_ok bytes_ok = (
  λ short. (
    made id (fd flags) bytes,
    rw (le→ltb max_fd_data_len (length bytes) short) refl,
    made-Holds id bytes short (fd flags) id_ok bytes_ok short,
  ),
  λ long. rw (lt→ltb max_fd_data_len (length bytes) long) refl,
)

-- A payload of at most `max` bytes gives a frame that holds it, and the length of another is
-- reported.
abbrev pub UpTo : ℕ → CanId → FrameKind → List ℕ → Result Frame FrameError → Type 0
UpTo max id kind bytes (ok f) = (length bytes ≤ max) × Holds id kind bytes f
UpTo max id kind bytes (err e) = (max < length bytes) × (e ≡ data_too_long (length bytes) max)

-- The constructors take exactly the payloads of at most 8 and of at most 64 bytes, make well-formed
-- frames that hold them, and report the length of the others.
pub new_classic-new_fd :
    (id : CanId) (bytes : List ℕ) (flags : FdFlags)
    → IsCanId id
    → IsBytes bytes
    → UpTo 8 id classic bytes (new_classic id bytes)
      × UpTo 64 id (fd flags) bytes (new_fd id bytes flags)
new_classic-new_fd id bytes flags id_ok bytes_ok = (
  judged max_data_len classic (new_classic id bytes) (new_classic_lem id bytes id_ok bytes_ok),
  judged max_fd_data_len (fd flags) (new_fd id bytes flags)
      (new_fd_lem id bytes flags id_ok bytes_ok),
)
  where
    judged :
        (max : ℕ) (kind : FrameKind) (r : Result Frame FrameError)
        → (length bytes ≤ max → (f : Frame) × (r ≡ ok f) × Holds id kind bytes f)
          × (max < length bytes → r ≡ err (data_too_long (length bytes) max))
        → UpTo max id kind bytes r
    judged max kind r (taken, refused) = elim (Bool-cases (ltb max (length bytes))) [
      | inl long ↦
          let h = ltb→lt max (length bytes) long in
          subst (UpTo max id kind bytes) (sym (refused h)) (h, refl)
      | inr short ↦
          let h = ltb→le max (length bytes) short in
          subst (UpTo max id kind bytes) (sym (taken h).1) (h, (taken h).2)
    ]

pub flags_from_wire-flags_to_wire :
    (flags : FdFlags) → flags_from_wire (flags_to_wire flags) ≡ flags
unfolding flags_to_wire flags_from_wire
flags_from_wire-flags_to_wire flags = ground arith
