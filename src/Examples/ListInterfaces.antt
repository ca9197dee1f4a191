-- ===== src/Examples/ListInterfaces.antt =====
-- examples/list_interfaces.rs: the table of interfaces. Names are taken as ASCII.
use mcanbus.Base.{
  ℕ, ◌-◌, Bool, true, false, Option, none, some, List, [], ◌∷◌, ◌++◌, length, replicate,
}
use mcanbus.Base.Results.{Result, ok, err}
use mcanbus.Base.Text.Decimal.{format_dec}
use mcanbus.Examples.{Halt, failed, codes}
use mcanbus.Iface.Bitrate.{Ip, bitrate}
use mcanbus.Iface.Netlink.{Netlink, state}
use mcanbus.Iface.State.{
  CanState, error_active, error_warning, error_passive, bus_off, stopped, sleeping,
}
use mcanbus.Iface.Sysfs.{Files, is_up, list_can_interfaces}
use mcanbus.Io.{IoError}
use mcanbus.Socket.Kernel.{Kernel}

-- `{:<width}`.
abbrev pub padded : ℕ → List ℕ → List ℕ
padded width s = s ++ replicate (width - length s) b' '

-- The derived `Debug` of `CanState`.
unfoldable pub debug_state : CanState → List ℕ
debug_state error_active = codes "ErrorActive"
debug_state error_warning = codes "ErrorWarning"
debug_state error_passive = codes "ErrorPassive"
debug_state bus_off = codes "BusOff"
debug_state stopped = codes "Stopped"
debug_state sleeping = codes "Sleeping"

unfoldable pub up_text : Option Bool → List ℕ
up_text (some true) = codes "yes"
up_text (some false) = codes "no"
up_text none = codes "?"

-- `.ok().flatten().map(…).unwrap_or_else(|| "?".to_string())`.
unfoldable pub state_text : Result (Option CanState) IoError → List ℕ
unfolding debug_state
state_text (ok (some s)) = debug_state s
state_text (ok none) = codes "?"
state_text (err e) = codes "?"

unfoldable pub bitrate_text : Option ℕ → List ℕ
bitrate_text (some b) = format_dec 0 b
bitrate_text none = codes "?"

abbrev pub row : List ℕ → List ℕ → List ℕ → List ℕ → List ℕ
row name up state bitrate =
    padded 12 name ++ (b' ' ∷ padded 6 up ++ (b' ' ∷ padded 14 state ++ (b' ' ∷ bitrate)))

abbrev pub no_interfaces : List ℕ
no_interfaces = codes "(no CAN interfaces found)"

abbrev pub header : List ℕ
header = row (codes "name") (codes "up") (codes "state") (codes "bitrate")

module _ (k : Kernel) (nl : Netlink k) (files : Files k.World) (ip : Ip k.World) where
  open k use {World}

  -- How it ended, and what it has printed.
  abbrev pub Printed : Type 0
  Printed = (Result (Unit {0}) Halt × List (List ℕ)) × World

  -- The rest of a round, behind `iface.is_up()?`; `rest` are the rounds that follow.
  unfoldable pub print_row :
      List ℕ
      → List (List ℕ)
      → (List (List ℕ) → World → Printed)
      → Result (Option Bool) IoError × World
      → Printed
  unfolding up_text state_text bitrate_text
  print_row name out rest (err e, w) = ((err (failed e), out), w)
  print_row name out rest (ok up, w) =
      let (controller, w₁) = state k nl name w in
      let (rate, w₂) = bitrate ip name w₁ in
      rest (out ++ row name (up_text up) (state_text controller) (bitrate_text rate) ∷ []) w₂

  unfoldable pub print_rows : List (List ℕ) → List (List ℕ) → World → Printed
  unfolding print_row
  print_rows [] out w = ((ok tt, out), w)
  print_rows (name ∷ names) out w = print_row name out (print_rows names) (is_up files name w)

  unfoldable pub print_table : Result (List (List ℕ)) IoError × World → Printed
  unfolding print_rows
  print_table (err e, w) = ((err (failed e), []), w)
  print_table (ok [], w) = ((ok tt, no_interfaces ∷ []), w)
  print_table (ok (name ∷ names), w) = print_rows (name ∷ names) (header ∷ []) w

  unfoldable pub main : World → Printed
  unfolding print_table
  main w = print_table (list_can_interfaces files w)
