-- ===== src/Mcp/Tools/Policy.antt =====
-- socketcan-mcp/src/main.rs: what the policy of the server keeps the tools from.
use mcanbus.Base.{ℕ, ◌≡◌, refl, true, false, some, List, if◌then◌else◌, Bool-cases, inl, inr}
use mcanbus.Base.Results.{Result, ok, err}
use mcanbus.Socket.Kernel.{Kernel}
use mcanbus.Base.Text.{same_text}
use mcanbus.Base.Text.Laws.{same_text-≡}
use mcanbus.Mcp.{McpError, invalid_params, Config, check_iface, check_writable, is_listed}
use mcanbus.Mcp.Runtime.{Runtime, checked}
use mcanbus.Mcp.Tools.{
  SendFrameArgs, CaptureArgs, IsoTpRequestArgs, SendAndCaptureArgs, send_frame, capture,
  isotp_request, send_and_capture, rx_iface_of,
}

module _ (k : Kernel) (runtime : Runtime k.World) (config : Config) where
  open k use {World}

  -- The tool did nothing.
  abbrev pub Refuses : {A : Type 0} → World → Result A McpError × World → Type 0
  Refuses w r = r ≡ (err invalid_params, w)

  check_iface-Refuses :
      {A : Type 0} (iface : List ℕ) (w : World) (f : Unit {0} → World → Result A McpError × World)
      → is_listed config.allowlist iface ≡ false
      → Refuses w (checked (check_iface config iface) f w)
  unfolding check_iface
  check_iface-Refuses iface w f unlisted = rw unlisted refl

  -- After the check of the interface, whatever that says.
  check_writable-Refuses :
      {A : Type 0} (iface : List ℕ) (w : World) (f : Unit {0} → World → Result A McpError × World)
      → config.readonly ≡ true
      → Refuses w
          (checked (check_iface config iface) (λ listed. checked (check_writable config) f) w)
  unfolding check_iface check_writable
  check_writable-Refuses iface w f readonly = elim (Bool-cases (is_listed config.allowlist iface)) [
    | inl listed ↦ rw (listed, readonly) refl
    | inr unlisted ↦ rw unlisted refl
  ]

  -- In the read-only mode the three tools that write to a bus refuse all arguments, and nothing of the
  -- world outside is touched.
  pub readonly-Refuses :
      (send_args : SendFrameArgs) (request_args : IsoTpRequestArgs)
      (exchange_args : SendAndCaptureArgs) (fuel : ℕ) (w : World)
      → config.readonly ≡ true
      → Refuses w (send_frame k runtime config send_args w)
        × Refuses w (isotp_request k runtime config request_args fuel w)
        × Refuses w (send_and_capture k runtime config exchange_args fuel w)
  unfolding send_frame isotp_request send_and_capture
  readonly-Refuses send_args request_args exchange_args fuel w readonly = (
    check_writable-Refuses send_args.iface w _ readonly,
    check_writable-Refuses request_args.iface w _ readonly,
    check_writable-Refuses exchange_args.iface w _ readonly,
  )

  -- The check of a second interface, after those of the first and of the mode.
  second_iface-Refuses :
      {A : Type 0} (iface first : List ℕ) (w : World)
      (f : Unit {0} → World → Result A McpError × World)
      → is_listed config.allowlist iface ≡ false
      → Refuses w (
          checked
            (check_iface config first)
            (λ listed. checked (check_writable config) (λ writable.
              checked (if same_text iface first then ok tt else check_iface config iface) f))
            w)
  unfolding check_iface check_writable
  second_iface-Refuses iface first w f unlisted =
      elim (Bool-cases (is_listed config.allowlist first)) [
        | inr refused ↦ rw refused refl
        | inl listed ↦ elim (Bool-cases config.readonly) [
          | inl readonly ↦ rw (listed, readonly) refl
          | inr writable ↦ elim (Bool-cases (same_text iface first)) [
            | inr other ↦ rw (listed, writable, other, unlisted) refl
            | inl same ↦
                let e = same_text-≡ iface first same in
                let wrong : is_listed config.allowlist iface ≡ true = rw e listed in
                absurd (cc (wrong, unlisted))
          ]
        ]
      ]

  -- On an interface that is not in the allowlist the four tools refuse, and nothing of the world
  -- outside is touched; `send_and_capture` refuses one for either direction.
  pub unlisted-Refuses :
      (iface : List ℕ) (send_args : SendFrameArgs) (capture_args : CaptureArgs)
      (request_args : IsoTpRequestArgs) (exchange_args : SendAndCaptureArgs) (fuel : ℕ) (w : World)
      → is_listed config.allowlist iface ≡ false
      → Refuses w (send_frame k runtime config (record send_args { iface = iface }) w)
        × Refuses w (capture k runtime config (record capture_args { iface = iface }) fuel w)
        × Refuses w (isotp_request k runtime config (record request_args { iface = iface }) fuel w)
        × Refuses w
            (send_and_capture k runtime config (record exchange_args { iface = iface }) fuel w)
        × Refuses w (
            send_and_capture k runtime config
              (record exchange_args { rx_iface = some iface })
              fuel
              w)
  unfolding send_frame isotp_request send_and_capture capture rx_iface_of
  unlisted-Refuses iface send_args capture_args request_args exchange_args fuel w unlisted = (
    check_iface-Refuses iface w _ unlisted,
    check_iface-Refuses iface w _ unlisted,
    check_iface-Refuses iface w _ unlisted,
    check_iface-Refuses iface w _ unlisted,
    second_iface-Refuses iface exchange_args.iface w _ unlisted,
  )
