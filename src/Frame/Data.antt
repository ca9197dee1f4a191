-- ===== src/Frame/Data.antt =====
-- mcanbus/src/frame.rs, `FdFlags`, `FrameKind`, `FrameError` and `Frame`: frames and their checked
-- construction. A `u8`, `u32`, `u64` or `usize` is a number, and `[u8; 64]` a list of 64 bytes.
pub mod Laws
use mcanbus.Base.{
  ℕ, ◌%◌, ◌^◌, ◌<◌, ◌≤◌, ◌-◌, bit_and, bit_or, ◌≡◌, Bool, true, false, Option, none, List, ◌!=◌,
  ltb, if◌then◌else◌, length, take, drop, replicate, overwrite, IsBytes,
}
use mcanbus.Base.Results.{Result, ok, err}
use mcanbus.Consts.{can_max_dlen, canfd_max_dlen, canfd_brs, canfd_esi}
use mcanbus.Frame.Id.{CanId, standard, IsCanId}

abbrev pub max_data_len : ℕ
max_data_len = can_max_dlen

abbrev pub max_fd_data_len : ℕ
max_fd_data_len = canfd_max_dlen

pub record FdFlags : Type 0 where
  pub brs : Bool
  pub esi : Bool

-- `FdFlags::to_wire` and `FdFlags::from_wire`.
unfoldable pub flags_to_wire : FdFlags → ℕ
flags_to_wire self =
    let f : ℕ = 0 in
    let f : ℕ = if self.brs then bit_or f canfd_brs else f in
    if self.esi then bit_or f canfd_esi else f

unfoldable pub flags_from_wire : ℕ → FdFlags
flags_from_wire wire = record {
  brs = bit_and wire canfd_brs != 0;
  esi = bit_and wire canfd_esi != 0;
}

pub data FrameKind : Type 0 where
  classic : FrameKind
  fd : FdFlags → FrameKind

-- `FrameKind::is_fd` and `FrameKind::fd_flags`.
pub kind_is_fd : FrameKind → Bool
kind_is_fd classic = false
kind_is_fd (fd flags) = true

pub fd_flags : FrameKind → FdFlags
fd_flags (fd flags) = flags
fd_flags classic = record { brs = false; esi = false }

-- Fields: `len` and `max`.
pub data FrameError : Type 0 where
  data_too_long : ℕ → ℕ → FrameError

pub record Frame : Type 0 where
  pub id : CanId
  pub kind : FrameKind
  pub len : ℕ
  pub data_buf : List ℕ
  pub timestamp_ns : Option ℕ

unfoldable pub new_classic : CanId → List ℕ → Result Frame FrameError
new_classic id payload =
    if ltb max_data_len (length payload)
    then err (data_too_long (length payload) max_data_len)
    else ok (record {
      id = id;
      kind = classic;
      len = length payload % 2 ^ 8;
      data_buf = overwrite 0 payload (replicate max_fd_data_len 0);
      timestamp_ns = none;
    })

unfoldable pub new_fd : CanId → List ℕ → FdFlags → Result Frame FrameError
new_fd id payload flags =
    if ltb max_fd_data_len (length payload)
    then err (data_too_long (length payload) max_fd_data_len)
    else ok (record {
      id = id;
      kind = fd flags;
      len = length payload % 2 ^ 8;
      data_buf = overwrite 0 payload (replicate max_fd_data_len 0);
      timestamp_ns = none;
    })

-- `Frame::data`. Rust panics on a `len` above 64, which `IsFrame` excludes.
unfoldable pub payload : Frame → List ℕ
payload self = take self.len self.data_buf

unfoldable pub is_fd : Frame → Bool
unfolding kind_is_fd
is_fd self = kind_is_fd self.kind

-- `Frame::zeroed` of mcanbus/src/socket.rs.
unfoldable pub zeroed : Frame
zeroed = record {
  id = standard 0;
  kind = classic;
  len = 0;
  data_buf = replicate max_fd_data_len 0;
  timestamp_ns = none;
}

-- The longest payload of a kind.
abbrev pub max_len : FrameKind → ℕ
max_len classic = max_data_len
max_len (fd flags) = max_fd_data_len

-- What the crate promises of every frame that it makes, and what the wire format needs.
pub record IsFrame (f : Frame) : Type 0 where
  pub id_fits : IsCanId f.id
  pub len_fits : f.len ≤ max_len f.kind
  pub buf_len : length f.data_buf ≡ max_fd_data_len
  pub buf_bytes : IsBytes f.data_buf

-- Nothing is left over behind the payload.
abbrev pub IsClean : Frame → Type 0
IsClean f = drop f.len f.data_buf ≡ replicate (max_fd_data_len - f.len) 0
