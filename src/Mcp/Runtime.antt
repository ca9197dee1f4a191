-- ===== src/Mcp/Runtime.antt =====
-- socketcan-mcp/src/main.rs: how the tools run. The runtime, tokio, is a parameter; an `io::Error`
-- becomes an internal error.
use mcanbus.Base.{Option, none, some, ◌≡◌}
use mcanbus.Base.Results.{Result, ok, err}
use mcanbus.Io.{IoError, os, kind, out_of_fuel}
use mcanbus.Mcp.{McpError, internal_error, out_of_rounds}

-- `spawn_blocking(f).await`; no result is a `JoinError`.
pub record Runtime (World : Type 0) : Type 1 where
  pub spawn_blocking : {A : Type 0} → (World → A × World) → World → Option A × World

-- The closure is run to its end and its value returned; it does not panic and is not aborted.
pub record IsRuntime (World : Type 0) (runtime : Runtime World) : Type 1 where
  pub runs :
      {A : Type 0} (f : World → A × World) (w : World)
      → runtime.spawn_blocking f w ≡ (some (f w).0, (f w).1)

-- `.map_err(|e| McpError::internal_error(…))`.
abbrev pub mcp_error : IoError → McpError
mcp_error (os errno) = internal_error
mcp_error (kind k) = internal_error
mcp_error out_of_fuel = out_of_rounds

module _ {W : Type 0} where
  -- `?` on an outcome with a world, and on a result that is at hand.
  abbrev pub then_act :
      {A B : Type 0}
      → Result A McpError × W
      → (A → W → Result B McpError × W)
      → Result B McpError × W
  then_act (ok a, w) f = f a w
  then_act (err e, w) f = (err e, w)

  abbrev pub checked :
      {A B : Type 0}
      → Result A McpError
      → (A → W → Result B McpError × W)
      → W
      → Result B McpError × W
  checked (ok a) f w = f a w
  checked (err e) f w = (err e, w)

  abbrev pub internal : {A : Type 0} → Result A IoError × W → Result A McpError × W
  internal (ok a, w) = (ok a, w)
  internal (err e, w) = (err (mcp_error e), w)

  -- `.map_err(|e| McpError::internal_error(format!("join: {e}"), None))??`
  abbrev pub joined : {A : Type 0} → Option (Result A McpError) × W → Result A McpError × W
  joined (none, w) = (err internal_error, w)
  joined (some r, w) = (r, w)
