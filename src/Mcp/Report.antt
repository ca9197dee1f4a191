-- ===== src/Mcp/Report.antt =====
-- socketcan-mcp/src/main.rs: the two tools that report on interfaces.
pub mod Ledger
use mcanbus.Base.{ℕ, Bool, Option, none, some, List, [], ◌∷◌}
use mcanbus.Base.Results.{Result, ok, err}
use mcanbus.Io.{IoError}
use mcanbus.Iface.State.{CanState}
use mcanbus.Iface.Netlink.{Netlink, state}
use mcanbus.Iface.Sysfs.{Files, is_up, list_can_interfaces}
use mcanbus.Iface.Bitrate.{Ip, bitrate}
use mcanbus.Socket.Kernel.{Kernel}
use mcanbus.Mcp.{McpError, Config}
use mcanbus.Mcp.Runtime.{then_act, internal}

-- `.ok().flatten()`.
abbrev pub ok_flatten : {A : Type 0} → Result (Option A) IoError → Option A
ok_flatten (ok a) = a
ok_flatten (err e) = none

pub record IfaceSummary : Type 0 where
  pub name : List ℕ
  pub up : Option Bool
  pub state : Option CanState
  pub bitrate : Option ℕ

pub record InterfacesReply : Type 0 where
  pub interfaces : List IfaceSummary
  pub allowlist : List (List ℕ)
  pub readonly : Bool

module _ (k : Kernel) (nl : Netlink k) (files : Files k.World) (ip : Ip k.World)
    (config : Config) where
  open k use {World}

  unfoldable pub iface_summary : List ℕ → World → IfaceSummary × World
  iface_summary name w =
      let (up, w₁) = is_up files name w in
      let (controller, w₂) = state k nl name w₁ in
      let (rate, w₃) = bitrate ip name w₂ in
      (
        record { name = name; up = ok_flatten up; state = ok_flatten controller; bitrate = rate },
        w₃,
      )

  -- `ifaces.iter().map(iface_summary).collect()`.
  unfoldable pub summaries : List (List ℕ) → World → List IfaceSummary × World
  summaries [] w = ([], w)
  summaries (name ∷ names) w =
      let (first, w₁) = iface_summary name w in
      let (rest, w₂) = summaries names w₁ in (first ∷ rest, w₂)

  unfoldable pub list_interfaces : World → Result InterfacesReply McpError × World
  unfolding summaries
  list_interfaces w = then_act (internal (list_can_interfaces files w)) λ names w₁.
      let (interfaces, w₂) = summaries names w₁ in
      (
        ok (record {
          interfaces = interfaces;
          allowlist = config.allowlist;
          readonly = config.readonly;
        }),
        w₂,
      )

  -- No check of the allowlist: any interface may be asked for.
  unfoldable pub iface_state : List ℕ → World → Result IfaceSummary McpError × World
  unfolding iface_summary
  iface_state name w = let (summary, w₁) = iface_summary name w in (ok summary, w₁)
