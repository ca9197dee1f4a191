-- ===== src/Lib.antt =====
-- Verification of mcanbus: CAN frames and the kernel's wire format, ISO-TP, the socket's system
-- calls, the interfaces, the tools of the server, and the example programs.
--
-- The program is a Rust workspace. mcanbus (mcanbus/src) is a library over Linux SocketCAN:
-- frame.rs has the identifiers, the checked frames and the decoder of what the kernel delivers,
-- socket.rs the system calls, isotp.rs the ISO-TP transport over a socket, reader.rs a thread that
-- fans frames out to subscribers, and iface.rs the interfaces of the host. socketcan-mcp
-- (socketcan-mcp/src) is an MCP server over that library, and examples has four programs that
-- use it.
--
-- Base: lists, Boolean tests, bit operations and results over the native numbers.
-- Consts: mcanbus/src/consts.rs.
-- Frame: mcanbus/src/frame.rs. Frame.Id has `CanId`, Frame.Data `Frame` and its constructors,
--   Frame.Display and Frame.Debug the text of a frame, Frame.Wire `WireFrame`, its bytes
--   (`frame_bytes`, as `Socket::send` cuts them off) and `decode_wire`. A buffer is a list of bytes
--   and the byte order of the host is a parameter.
-- Io: `std::io::Result` with the world passed explicitly; messages of errors are not kept.
-- Channel: what isotp.rs uses of `Socket`, `Instant::now` and `thread::sleep`, as an interface;
--   its laws `IsTimed` say that the clock does not run back and that `recv` takes time.
-- IsoTp: mcanbus/src/isotp.rs. IsoTp.Encode has the frames of the protocol, IsoTp.Send and
--   IsoTp.Receive the two directions, with what is done with one received frame (`on_fc`,
--   `on_first`, `on_cf`) apart from the loops, and IsoTp.Request `request`.
-- Socket: mcanbus/src/socket.rs. Socket.Kernel has the system calls as a parameter, Socket.Open
--   `Socket::open`, Socket.Transfer the receiving and sending calls, Socket.Timestamp the time
--   stamps, Socket.Filter `CanFilter` and Socket.RawFd the conversions; Socket.Link fills Channel
--   with a socket. A receive call is told for when it comes back; that one never does, without
--   `SO_RCVTIMEO` on a silent bus, is only modelled for the thread of the reader (`hangs`).
-- Reader: mcanbus/src/reader.rs, the registry of subscribers and the loop of `run_reader`. The
--   queues of crossbeam_channel are a parameter; what other threads do in a round, such as
--   emptying queues, subscribing and setting the flag, is an entry of a schedule (Reader.Loop).
--   Reader.Lifetime has `with_config`, `shutdown` and `Drop`, where joining a thread that goes on
--   or hangs gives nothing, Reader.Broadcast is about the queues, and Reader.Subscriber has the
--   calls of a subscriber.
-- Iface: mcanbus/src/iface.rs. Iface.State has `CanState`, Iface.Attr the search through
--   attributes, Iface.Reply what is made of the kernel's answers, and Iface.Netlink the requests
--   and the operations of `Interface`; the calls on a netlink socket are a parameter, `Netlink`.
--   Iface.Sysfs has what is read from files, which are a parameter, `Files`, and Iface.Bitrate what
--   is read from the output of the `ip` command, another one.
-- Mcp: socketcan-mcp/src/main.rs, the policy checks and the frames and filters made of
--   hexadecimal texts. Mcp.Environment has `from_env`, Mcp.Json `FrameJson`, Mcp.Capture
--   `run_capture`, Mcp.Tools the tools that use a bus over a runtime, tokio, that is a
--   parameter, `Runtime`, and Mcp.Report those that report on interfaces.
--   `from_str_radix` and `{:X}` of Rust's standard library are in Base.Text.
-- Examples: the command-line programs of examples. Examples.Cangen is cangen.rs, Examples.Candump
--   candump.rs, Examples.Multireader multireader.rs and Examples.ListInterfaces list_interfaces.rs,
--   over the modules above; `then_do` is what `?` does in them, and a panic is an outcome. A run of
--   a loop that ends with a signal is told by its number of rounds.
-- Tests: runs of the definitions, and the theorems at concrete inputs.
--
-- Loops take a number of rounds as fuel and give `out_of_fuel` (`out_of_rounds` in the server),
-- which the source does not have, when it is used up. The loop of `send_consecutive_frames` gives
-- itself one round more than the payload has bytes, and each round sends at least one. The loops
-- of the receiving side are given more rounds than there are nanoseconds to the deadline: each
-- round takes time, and after the deadline none is begun. The loop of a capture is of the same
-- kind. The search through attributes gives itself one round more than there are bytes, and goes
-- four bytes on at least in each.
--
-- Numbers are natural numbers, and a cast or a wrap is written out (`% 2 ^ 8`). The text of IO
-- errors is not modelled; nor are the queues of reader.rs, which crossbeam_channel has, a thread
-- that cannot be started, the start and the join of the workers of multireader.rs, signal handlers,
-- and what goes to stderr. Of socketcan-mcp, the text of JSON and the start of the server are left
-- out.
mod Base
pub mod Consts
pub mod Frame
pub mod Io
pub mod Channel
pub mod IsoTp
pub mod Socket
pub mod Examples
pub mod Iface
pub mod Reader
pub mod Mcp
mod Tests
