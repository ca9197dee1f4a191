-- ===== src/Consts.antt =====
-- mcanbus/src/consts.rs: the constants of linux/can.h, linux/can/raw.h and linux/can/netlink.h, and
-- the flag bits of linux/net_tstamp.h.
use Prim.Native.Nat.{ℕ, ◌+◌, ◌^◌}

abbrev pub af_can : ℕ
af_can = 29

abbrev pub pf_can : ℕ
pf_can = af_can

abbrev pub can_raw : ℕ
can_raw = 1

abbrev pub siocgifindex : ℕ
siocgifindex = 0x8933

abbrev pub sol_can_base : ℕ
sol_can_base = 100

abbrev pub sol_can_raw : ℕ
sol_can_raw = sol_can_base + can_raw

abbrev pub can_raw_filter : ℕ
can_raw_filter = 1

abbrev pub can_raw_err_filter : ℕ
can_raw_err_filter = 2

abbrev pub can_raw_loopback : ℕ
can_raw_loopback = 3

abbrev pub can_raw_recv_own_msgs : ℕ
can_raw_recv_own_msgs = 4

abbrev pub can_raw_fd_frames : ℕ
can_raw_fd_frames = 5

abbrev pub can_raw_join_filters : ℕ
can_raw_join_filters = 6

abbrev pub can_eff_flag : ℕ
can_eff_flag = 0x8000_0000

abbrev pub can_rtr_flag : ℕ
can_rtr_flag = 0x4000_0000

abbrev pub can_err_flag : ℕ
can_err_flag = 0x2000_0000

abbrev pub can_eff_mask : ℕ
can_eff_mask = 0x1fff_ffff

abbrev pub can_sff_mask : ℕ
can_sff_mask = 0x0000_07ff

abbrev pub can_err_mask : ℕ
can_err_mask = 0x1fff_ffff

abbrev pub canfd_brs : ℕ
canfd_brs = 0x01

abbrev pub canfd_esi : ℕ
canfd_esi = 0x02

abbrev pub canfd_fdf : ℕ
canfd_fdf = 0x04

abbrev pub can_frame_size : ℕ
can_frame_size = 16

abbrev pub canfd_frame_size : ℕ
canfd_frame_size = 72

abbrev pub can_max_dlen : ℕ
can_max_dlen = 8

abbrev pub canfd_max_dlen : ℕ
canfd_max_dlen = 64

abbrev pub sof_timestamping_tx_hardware : ℕ
sof_timestamping_tx_hardware = 2 ^ 0

abbrev pub sof_timestamping_tx_software : ℕ
sof_timestamping_tx_software = 2 ^ 1

abbrev pub sof_timestamping_rx_hardware : ℕ
sof_timestamping_rx_hardware = 2 ^ 2

abbrev pub sof_timestamping_rx_software : ℕ
sof_timestamping_rx_software = 2 ^ 3

abbrev pub sof_timestamping_software : ℕ
sof_timestamping_software = 2 ^ 4

abbrev pub sof_timestamping_sys_hardware : ℕ
sof_timestamping_sys_hardware = 2 ^ 5

abbrev pub sof_timestamping_raw_hardware : ℕ
sof_timestamping_raw_hardware = 2 ^ 6

abbrev pub can_err_tx_timeout : ℕ
can_err_tx_timeout = 0x0000_0001

abbrev pub can_err_lostarb : ℕ
can_err_lostarb = 0x0000_0002

abbrev pub can_err_crtl : ℕ
can_err_crtl = 0x0000_0004

abbrev pub can_err_prot : ℕ
can_err_prot = 0x0000_0008

abbrev pub can_err_trx : ℕ
can_err_trx = 0x0000_0010

abbrev pub can_err_ack : ℕ
can_err_ack = 0x0000_0020

abbrev pub can_err_busoff : ℕ
can_err_busoff = 0x0000_0040

abbrev pub can_err_buserror : ℕ
can_err_buserror = 0x0000_0080

abbrev pub can_err_restarted : ℕ
can_err_restarted = 0x0000_0100

abbrev pub can_state_error_active : ℕ
can_state_error_active = 0

abbrev pub can_state_error_warning : ℕ
can_state_error_warning = 1

abbrev pub can_state_error_passive : ℕ
can_state_error_passive = 2

abbrev pub can_state_bus_off : ℕ
can_state_bus_off = 3

abbrev pub can_state_stopped : ℕ
can_state_stopped = 4

abbrev pub can_state_sleeping : ℕ
can_state_sleeping = 5
