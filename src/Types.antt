-- ===== src/Types.antt =====
-- The public types of sdrgg.h and the device state of sdrgg_internal.h.
use libsdrgg.Prelude.{ℕ, Bool, List}
use libsdrgg.Prelude.Int.{ℤ}

-- The negative `SDRGG_ERR_*` codes; `SDRGG_OK` and non-negative results are the `ok` of `Result`.
-- `trap` is no result at all: a division by zero, which kills the process, or a loop that does not
-- end within its fuel.
pub data Error : Type 0 where
  err_usb err_io err_nodev err_busy err_timeout err_pll err_param err_nomem : Error

pub data Result (A : Type 0) : Type 0 where
  ok : A → Result A
  err : Error → Result A
  trap : Result A

-- `sdrgg_tuner_type_t`
pub data TunerType : Type 0 where
  tuner_unknown tuner_r820t tuner_r820t2 tuner_fc0012 tuner_fc0013 tuner_fc2580 tuner_e4000 :
      TunerType

pub TunerType-discrete : Discrete TunerType
TunerType-discrete = hlevel

-- `device_health`
pub data Health : Type 0 where
  health_ok health_usb_errors health_disconnected health_dead : Health

-- The values of `errno` that the transport tells apart.
pub data Errno : Type 0 where
  enodev enxio eshutdown other_errno : Errno

-- `tuning_context`
pub record Tuning : Type 0 where
  pub center_freq_hz : ℕ
  pub sampling_rate_hz : ℕ
  pub if_offset_hz : ℕ
  pub gain_policy : ℤ
  pub requested_freq_hz : ℕ
  pub requested_rate_hz : ℕ
  pub last_freq_result : Result (Unit {0})
  pub last_rate_result : Result (Unit {0})

-- What the library asks of the kernel through the device's file descriptor.
pub data Request : Type 0 where
  -- USBDEVFS_CONTROL with bRequestType 0x40: wValue, wIndex and the bytes sent
  control_out : ℕ → ℕ → List ℕ → Request
  -- USBDEVFS_CONTROL with bRequestType 0xC0: wValue, wIndex and wLength
  control_in : ℕ → ℕ → ℕ → Request
  -- USBDEVFS_BULK on endpoint 0x81: length and timeout in ms
  bulk_in : ℕ → ℕ → Request
  -- USBDEVFS_RESET, USBDEVFS_CLAIMINTERFACE, USBDEVFS_RELEASEINTERFACE
  reset_device claim_interface release_interface : Request
  -- USBDEVFS_GET_CAPABILITIES, USBDEVFS_GETDRIVER, and USBDEVFS_IOCTL with USBDEVFS_DISCONNECT
  get_capabilities get_driver disconnect_driver : Request
  -- USBDEVFS_CONTROL with bRequestType 0x80, for the device descriptor, and close
  get_descriptor close_fd : Request

-- `done` is a result of at least 0. It carries the caller's buffer as it is after the call (for
-- `bulk_in`, only the bytes that were read, whose number is the result).
pub data Reply : Type 0 where
  done : List ℕ → Reply
  failed : Errno → Reply

-- What an observer of the process sees, in order: kernel calls, sleeps in microseconds, and calls of
-- the hot-plug callback with SDRGG_EVENT_DISCONNECT.
pub data Event : Type 0 where
  io : Request → Reply → Event
  slept : ℕ → Event
  notified_disconnect : Event

-- The kernel and the device behind it: its answer to a request may depend on all that happened
-- before. `stale` is what a byte on the stack holds that the code did not initialise.
pub record Host : Type 0 where
  pub ioctl : List Event → Request → Reply
  pub stale : List Event → ℕ

-- `sdrgg_devinfo_t`; texts are lists of character codes.
pub record DevInfo : Type 0 where
  pub path : List ℕ
  pub vid : ℕ
  pub pid : ℕ
  pub serial : List ℕ
  pub bus : ℕ
  pub devaddr : ℕ
  pub tuner : TunerType

-- `sdrgg_dev`, without the stream and its URB pipeline, and the events so far, newest first. The
-- flag `has_hotplug_cb` says whether the context has a callback registered.
pub record Dev : Type 0 where
  pub info : DevInfo
  pub tuner_class : TunerType
  pub tuner_bus_addr : ℕ
  pub oscillator_hz : ℕ
  pub freq_offset_ppm : ℤ
  pub r820t_file : List ℕ
  pub tuning : Tuning
  pub stream_active : Bool
  pub usb_error_count : ℕ
  pub health : Health
  pub has_hotplug_cb : Bool
  pub trace : List Event

abbrev pub is_r820t_family : TunerType → Bool
is_r820t_family tuner_r820t = Bool.true
is_r820t_family tuner_r820t2 = Bool.true
is_r820t_family _ = Bool.false

abbrev pub is_fc001x_family : TunerType → Bool
is_fc001x_family tuner_fc0012 = Bool.true
is_fc001x_family tuner_fc0013 = Bool.true
is_fc001x_family _ = Bool.false
