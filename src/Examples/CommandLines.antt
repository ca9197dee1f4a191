-- ===== src/Examples/CommandLines.antt =====
-- examples/cangen.rs and examples/candump.rs: arguments written as command lines.
use mcanbus.Base.{◌≡◌, Option, List, ℕ}
use mcanbus.Base.Results.{ok}
use mcanbus.Examples.Cangen
use mcanbus.Examples.Cangen.Arguments.{IsArgs, command_line, parse_args-command_line}
use mcanbus.Examples.Candump
use mcanbus.Examples.Candump.Arguments.{AreFilters, dump_line, parse_args-dump_line}
use mcanbus.Socket.Filter.{CanFilter}

-- Arguments written as a command line are parsed as they are: those of any run of cangen, and for
-- candump an interface, alone or with some filters of 32-bit words.
pub command_line-dump_line :
    (args : Cangen.Args) (iface : List ℕ) (filter : Option (List CanFilter))
    → IsArgs args
    → AreFilters filter
    → (Cangen.parse_args (command_line args) ≡ ok args)
      × (Candump.parse_args (dump_line (record { iface = iface; filter = filter }))
          ≡ ok (record { iface = iface; filter = filter }))
command_line-dump_line args iface filter v fits =
    (parse_args-command_line args v, parse_args-dump_line iface filter fits)
