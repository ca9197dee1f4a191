-- ===== src/Mcp/Report/Ledger.antt =====
-- socketcan-mcp/src/main.rs: the file descriptors of the tools that report.
use mcanbus.Base.{ℕ, ◌≡◌, refl, ◌∙◌, Bool, Option, none, some, List, [], ◌∷◌, either_branch}
use mcanbus.Base.Results.{Result, ok, err}
use mcanbus.Io.{IoError}
use mcanbus.Iface.Netlink.{Netlink, state}
use mcanbus.Iface.Netlink.Ledger.{NetlinkLedger, operations-Keeps}
use mcanbus.Iface.Sysfs.{
  Files, FileError, not_found, failed, is_up, list_can_interfaces, listed_dir, sorted,
  collect_devices, is_can_device, class_net, flags_path, type_path,
}
use mcanbus.Iface.Bitrate.{Ip, bitrate, parsed_bitrate, text_or_empty}
use mcanbus.Socket.Kernel.{Kernel}
use mcanbus.Socket.Ledger.{Ledger}
use mcanbus.Mcp.{Config}
use mcanbus.Mcp.Runtime.{then_act, internal}
use mcanbus.Mcp.Report.{InterfacesReply, iface_summary, summaries, list_interfaces, iface_state}

-- Whoever reads a file or runs a command has closed what that takes when the call returns.
pub record ReportLedger (k : Kernel) (ledger : Ledger k) (files : Files k.World) (ip : Ip k.World)
    : Type 0 where
  pub read_keeps :
      (path : List ℕ) (w : k.World)
      → ledger.open_fds (files.read_to_string path w).1 ≡ ledger.open_fds w
  pub dir_keeps :
      (path : List ℕ) (w : k.World) → ledger.open_fds (files.read_dir path w).1 ≡ ledger.open_fds w
  pub exists_keeps :
      (path : List ℕ) (w : k.World) → ledger.open_fds (files.exists path w).1 ≡ ledger.open_fds w
  pub output_keeps :
      (name : List ℕ) (w : k.World) → ledger.open_fds (ip.output name w).1 ≡ ledger.open_fds w

module _ (k : Kernel) (nl : Netlink k) (ledger : Ledger k) (net : NetlinkLedger k nl ledger)
    (files : Files k.World) (ip : Ip k.World) (reports : ReportLedger k ledger files ip)
    (config : Config) where
  open k use {World}
  open ledger use {open_fds}
  open files use {read_dir, exists, read_to_string}
  open reports use {read_keeps, dir_keeps, exists_keeps, output_keeps}

  is_up_keeps : (name : List ℕ) (w : World) → open_fds (is_up files name w).1 ≡ open_fds w
  unfolding is_up
  is_up_keeps name w = read_keeps (flags_path name) w

  bitrate_keeps : (name : List ℕ) (w : World) → open_fds (bitrate ip name w).1 ≡ open_fds w
  unfolding bitrate
  bitrate_keeps name w = shown (ip.output name w).0 ∙ output_keeps name w
    where
      shown :
          (o : Option (List ℕ))
          → open_fds
              (elim o as (λ p. Option ℕ × World) [
                | none ↦ (none, (ip.output name w).1)
                | some stdout ↦ (parsed_bitrate (text_or_empty stdout), (ip.output name w).1)
              ]).1
            ≡ open_fds (ip.output name w).1
      shown none = refl
      shown (some stdout) = refl

  state_keeps : (name : List ℕ) (w : World) → open_fds (state k nl name w).1 ≡ open_fds w
  state_keeps name w = (operations-Keeps k nl ledger net name w).3

  iface_summary_keeps :
      (name : List ℕ) (w : World)
      → open_fds (iface_summary k nl files ip config name w).1 ≡ open_fds w
  unfolding iface_summary
  iface_summary_keeps name w =
      let w₁ = (is_up files name w).1 in
      bitrate_keeps name (state k nl name w₁).1 ∙ (state_keeps name w₁ ∙ is_up_keeps name w)

  summaries_keeps :
      (names : List (List ℕ)) (w : World)
      → open_fds (summaries k nl files ip config names w).1 ≡ open_fds w
  unfolding summaries
  summaries_keeps [] w = refl
  summaries_keeps (name ∷ names) w =
      summaries_keeps names (iface_summary k nl files ip config name w).1
      ∙ iface_summary_keeps name w

  is_can_device_keeps :
      (name : List ℕ) (w : World) → open_fds (is_can_device files name w).1 ≡ open_fds w
  unfolding is_can_device
  is_can_device_keeps name w =
      let w₁ = (exists (type_path name) w).1 in
      either_branch (λ (r : Bool × World). open_fds r.1 ≡ open_fds w) (exists (type_path name) w).0
        (read_keeps (type_path name) w₁ ∙ exists_keeps (type_path name) w)
        (exists_keeps (type_path name) w)

  collect_devices_keeps :
      (dir : List (Result (Option (List ℕ)) IoError)) (out : List (List ℕ)) (w : World)
      → open_fds (collect_devices files dir out w).1 ≡ open_fds w
  unfolding collect_devices
  collect_devices_keeps [] out w = refl
  collect_devices_keeps (err e ∷ dir) out w = refl
  collect_devices_keeps (ok none ∷ dir) out w = collect_devices_keeps dir out w
  collect_devices_keeps (ok (some name) ∷ dir) out w =
      collect_devices_keeps dir _ (is_can_device files name w).1 ∙ is_can_device_keeps name w

  sorted_keeps :
      (r : Result (List (List ℕ)) IoError × World) → open_fds (sorted files r).1 ≡ open_fds r.1
  sorted_keeps (ok out, w) = refl
  sorted_keeps (err e, w) = refl

  listed_dir_keeps :
      (r : Result (List (Result (Option (List ℕ)) IoError)) FileError × World)
      → open_fds (listed_dir files r).1 ≡ open_fds r.1
  listed_dir_keeps (ok dir, w) =
      sorted_keeps (collect_devices files dir [] w) ∙ collect_devices_keeps dir [] w
  listed_dir_keeps (err not_found, w) = refl
  listed_dir_keeps (err (failed e), w) = refl

  list_can_interfaces_keeps : (w : World) → open_fds (list_can_interfaces files w).1 ≡ open_fds w
  unfolding list_can_interfaces
  list_can_interfaces_keeps w = listed_dir_keeps (read_dir class_net w) ∙ dir_keeps class_net w

  -- Over a kernel, files and a command that leave no descriptor open behind them, the two tools that
  -- report on interfaces, which take any name, leave the open descriptors as they were, whatever is
  -- answered.
  pub list_interfaces-iface_state :
      (name : List ℕ) (w : World)
      → (open_fds (list_interfaces k nl files ip config w).1 ≡ open_fds w)
        × (open_fds (iface_state k nl files ip config name w).1 ≡ open_fds w)
  unfolding list_interfaces iface_state
  list_interfaces-iface_state name w = (
    listed (list_can_interfaces files w) (list_can_interfaces_keeps w),
    iface_summary_keeps name w,
  )
    where
      listed :
          (r : Result (List (List ℕ)) IoError × World)
          → open_fds r.1 ≡ open_fds w
          → open_fds
              (then_act {B = InterfacesReply} (internal r) λ names w₁. (
                ok (record {
                  interfaces = (summaries k nl files ip config names w₁).0;
                  allowlist = config.allowlist;
                  readonly = config.readonly;
                }),
                (summaries k nl files ip config names w₁).1,
              )).1
            ≡ open_fds w
      listed (ok names, w₁) h = summaries_keeps names w₁ ∙ h
      listed (err e, w₁) h = h
