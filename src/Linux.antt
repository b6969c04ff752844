-- ===== src/Linux.antt =====
-- usb-lib/src/backend/linux.rs: the usbdevfs backend. This file has the system calls, as parameters:
-- the kernel is a record of operations on a world of type `W`, and an `ioctl` returns a C int and
-- leaves the memory behind the data pointer changed. The error numbers are those of Linux.
pub mod Device
pub mod Isoch
pub mod Backend
pub mod Read
pub mod Strings
pub mod Cache
pub mod Packets
pub mod Open
pub mod Returns
pub mod Guards
pub mod Enumerate
mod Tests
pub use rust_usb.Base.{ℤ, pos, negsuc}
use rust_usb.Base.{ℕ, List, [], ◌∷◌, ◌==◌, ◌||◌, Bool, if◌then◌else◌}
use rust_usb.Error.{
  IoError, UsbError, Result, ok, err, stall, timeout, device_not_found, permission_denied, other,
}
use rust_usb.Text.{Text}
use rust_usb.Endpoint.{EndpointInfo}

pub record UsbdevfsCtrltransfer : Type 0 where
  pub request_type : ℕ
  pub request : ℕ
  pub value : ℕ
  pub index : ℕ
  pub length : ℕ
  pub timeout : ℕ

pub record UsbdevfsBulktransfer : Type 0 where
  pub ep : ℕ
  pub len : ℕ
  pub timeout : ℕ

pub record UsbdevfsSetinterface : Type 0 where
  pub interface : ℕ
  pub altsetting : ℕ

pub record UsbdevfsIsoPacketDesc : Type 0 where
  pub length : ℕ
  pub actual_length : ℕ
  pub status : ℕ

-- The fields of the header that the code sets or reads, and the packets behind it.
pub record UsbdevfsIsoUrb : Type 0 where
  pub urb_type : ℕ
  pub endpoint : ℕ
  pub status : ℤ
  pub buffer_length : ℕ
  pub actual_length : ℤ
  pub number_of_packets : ℕ
  pub iso_frame_desc : List UsbdevfsIsoPacketDesc

-- The ioctl numbers with what their pointers point to. The buffer of a transfer is separate.
pub data Request : Type 0 where
  control : UsbdevfsCtrltransfer → Request
  bulk : UsbdevfsBulktransfer → Request
  set_interface : UsbdevfsSetinterface → Request
  claim_interface release_interface reset_endpoint clear_halt : ℕ → Request
  reset_device : Request

pub data Opened : Type 0 where
  file : ℕ → Opened
  failed : IoError → Opened

-- Which URB `REAPURB` hands back: no pointer, the one just submitted, or another.
pub data Reaped : Type 0 where
  null submitted another : Reaped

pub record Kernel (W : Type 0) : Type 0 where
  pub open_file : Bool → Text → W → Opened × W
  pub ioctl : ℕ → Request → List ℕ → W → ℤ × List ℕ × W
  pub submit_urb : ℕ → UsbdevfsIsoUrb → List ℕ → W → ℤ × W
  -- Afterwards the URB and its buffer hold what the kernel wrote into them.
  pub reap_urb : ℕ → UsbdevfsIsoUrb → List ℕ → W → ℤ × Reaped × UsbdevfsIsoUrb × List ℕ × W
  pub errno : W → ℕ

-- `nix::Result`
pub data Nix : Type 0 where
  done errno : ℕ → Nix

-- The device's file descriptor and its endpoint cache, whose lock no panic can poison.
pub record LinuxDevice : Type 0 where
  pub fd : ℕ
  pub endpoint_cache : List (ℕ × EndpointInfo)

pub record Attached (W : Type 0) : Type 0 where
  pub device : LinuxDevice
  pub world : W

unfoldable pub map_errno_code : ℕ → UsbError
map_errno_code code =
    if code == 32
    then stall
    else (if code == 110
        then timeout
        else (if code == 19
            then device_not_found
            else (if code == 13 || code == 1
                then permission_denied
                else other "errno {}" (code ∷ []))))

-- `.map_err(map_errno)`
abbrev pub map_errno : Nix → Result ℕ
map_errno (done n) = ok n
map_errno (errno e) = err (map_errno_code e)

-- `.map_err(..)` for a result that carries no value
abbrev pub discard : Result ℕ → Result (Unit {0})
discard (ok n) = ok tt
discard (err e) = err e
discard Result.panic = Result.panic
discard Result.no_fuel = Result.no_fuel

module _ {W : Type 0} (k : Kernel W) where
  -- `if ret < 0 { Err(Errno::last()) } else { Ok(ret) }`
  abbrev pub checked : ℤ → W → Nix
  checked (pos n) w = done n
  checked (negsuc n) w = errno (k.errno w)

  unfoldable pub ioctl_usbdevfs_control : ℕ → UsbdevfsCtrltransfer → List ℕ → W → Nix × List ℕ × W
  ioctl_usbdevfs_control fd transfer bytes w =
      let (ret, bytes', w') = k.ioctl fd (control transfer) bytes w in (checked ret w', bytes', w')

  unfoldable pub ioctl_usbdevfs_bulk : ℕ → UsbdevfsBulktransfer → List ℕ → W → Nix × List ℕ × W
  ioctl_usbdevfs_bulk fd transfer bytes w =
      let (ret, bytes', w') = k.ioctl fd (bulk transfer) bytes w in (checked ret w', bytes', w')

  -- An ioctl without a data buffer.
  abbrev pub plain_ioctl : ℕ → Request → W → Nix × W
  plain_ioctl fd request w = let (ret, _, w') = k.ioctl fd request [] w in (checked ret w', w')

  unfoldable pub ioctl_set_interface : ℕ → UsbdevfsSetinterface → W → Nix × W
  ioctl_set_interface fd setintf w = plain_ioctl fd (set_interface setintf) w

  unfoldable pub ioctl_claim_interface : ℕ → ℕ → W → Nix × W
  ioctl_claim_interface fd iface w = plain_ioctl fd (claim_interface iface) w

  unfoldable pub ioctl_release_interface : ℕ → ℕ → W → Nix × W
  ioctl_release_interface fd iface w = plain_ioctl fd (release_interface iface) w

  unfoldable pub ioctl_reset_endpoint : ℕ → ℕ → W → Nix × W
  ioctl_reset_endpoint fd endpoint w = plain_ioctl fd (reset_endpoint endpoint) w

  unfoldable pub ioctl_clear_halt : ℕ → ℕ → W → Nix × W
  ioctl_clear_halt fd endpoint w = plain_ioctl fd (clear_halt endpoint) w

  unfoldable pub ioctl_reset_device : ℕ → W → Nix × W
  ioctl_reset_device fd w = plain_ioctl fd reset_device w

  unfoldable pub ioctl_submit_urb : ℕ → UsbdevfsIsoUrb → List ℕ → W → Nix × W
  ioctl_submit_urb fd urb bytes w =
      let (ret, w') = k.submit_urb fd urb bytes w in (checked ret w', w')

  unfoldable pub ioctl_reap_urb :
      ℕ → UsbdevfsIsoUrb → List ℕ → W → Nix × Reaped × UsbdevfsIsoUrb × List ℕ × W
  ioctl_reap_urb fd urb bytes w =
      let (ret, reaped, urb', bytes', w') = k.reap_urb fd urb bytes w in
      (checked ret w', reaped, urb', bytes', w')
