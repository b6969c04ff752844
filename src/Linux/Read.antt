-- ===== src/Linux/Read.antt =====
-- Reading descriptors over a kernel that serves them: what comes back is what the device has.
use rust_usb.Base.{
  ℕ, ◌+◌, ◌*◌, ◌/◌, ◌%◌, ◌^◌, ◌<◌, ◌≡◌, refl, ◌∙◌, List, [], ◌++◌, arith, length, take, drop,
  replicate, min, bit_or, bit_or-byte, length-replicate, take-drop_whole, append-nil,
}
use rust_usb.Error.{ok}
use rust_usb.Bytes.{index}
use rust_usb.Descriptor.Device.{DeviceDescriptor, device_from_bytes-encode}
use rust_usb.Descriptor.Device
use rust_usb.Descriptor.Config.{ConfigDescriptor}
use rust_usb.Descriptor.Config
use rust_usb.Descriptor.Config.Encode
use rust_usb.Descriptor.Config.RoundTrip.{config_from_bytes-encode}
use rust_usb.Backend.{and_then, and_then_ok}
use rust_usb.Linux.{Kernel, Attached, pos, control, ioctl_usbdevfs_control}
use rust_usb.Linux.Device.{
  raw_control, read_total_length, read_config_descriptor_impl, read_device_descriptor, read_whole,
}

module _ {W : Type 0} (k : Kernel W) where
  -- What usbdevfs documents of a control transfer that reads `bytes`: as many of them as there is
  -- room for are put at the front of the buffer, and their number is returned. `P` is what holds of
  -- the world as long as the device is there.
  abbrev pub Serves : (W → Type 0) → ℕ → ℕ → ℕ → List ℕ → Type 0
  Serves P fd value index bytes =
      (buf : List ℕ) (w : W)
      → P w
      → length buf < 65536
      → let (ret, after, w') =
          k.ioctl fd
            (control (record {
              request_type = 0x80;
              request = 0x06;
              value = value;
              index = index;
              length = length buf;
              timeout = 5000;
            }))
            buf w in
        (ret ≡ pos (min (length buf) (length bytes)))
        × (after ≡ take (length buf) bytes ++ drop (length bytes) buf)
        × P w'

  raw_control-buffer :
      (P : W → Type 0) (value index : ℕ) (buf bytes : List ℕ) (s : Attached W)
      → Serves P s.device.fd value index bytes
      → P s.world
      → length buf < 65536
      → let (r, after, s') = raw_control k 0x80 0x06 value index buf 5000 s in
        (r ≡ ok (min (length buf) (length bytes)))
        × (after ≡ take (length buf) bytes ++ drop (length bytes) buf)
        × P s'.world
        × (s'.device ≡ s.device)
  unfolding raw_control ioctl_usbdevfs_control
  raw_control-buffer P value index buf bytes s serves p h =
      let (ret, after, q) = serves buf s.world p h in
      let small : length buf % 2 ^ 16 ≡ length buf = omega arith in
      rw (small, ret) (refl, after, q, refl)

  -- A served read of `n` bytes into a zeroed buffer.
  pub raw_control-Serves :
      (P : W → Type 0) (value index n : ℕ) (bytes : List ℕ) (s : Attached W)
      → Serves P s.device.fd value index bytes
      → P s.world
      → n < 65536
      → let (r, after, s') = raw_control k 0x80 0x06 value index (replicate n 0) 5000 s in
        (r ≡ ok (min n (length bytes)))
        × (after ≡ take n bytes ++ drop (length bytes) (replicate n 0))
        × P s'.world
        × (s'.device ≡ s.device)
  raw_control-Serves P value index n bytes s serves p h =
      let zeros : List ℕ = replicate n 0 in
      let size : length zeros ≡ n = length-replicate n 0 in
      rw size at (raw_control-buffer P value index zeros bytes s serves p (rw size h))

  -- On a device that is there and serves the bytes of a descriptor, `read_device_descriptor` returns
  -- that descriptor, the device is still there, and the file and the cache are as they were.
  pub read_device_descriptor-Serves :
      (P : W → Type 0) (d : DeviceDescriptor) (s : Attached W)
      → Serves P s.device.fd 0x0100 0 (Device.encode d)
      → P s.world
      → let (r, s') = read_device_descriptor k s in (r ≡ ok d) × P s'.world × (s'.device ≡ s.device)
  unfolding read_device_descriptor
  read_device_descriptor-Serves P d s serves p =
      let (r, after, q, same) =
        raw_control-Serves P 0x0100 0 18 (Device.encode d) s serves p (omega arith) in
      let parsed : Device.from_bytes (Device.encode d) ≡ ok d =
        rw (append-nil (Device.encode d)) at (device_from_bytes-encode d []) in
      (ground (arith, r, after, parsed), q, same)

  read_total_length-Serves :
      (P : W → Type 0) (c : ConfigDescriptor) (value : ℕ) (s : Attached W)
      → Serves P s.device.fd value 0 (Encode.encode c)
      → P s.world
      → c.total_length ≡ length (Encode.encode c)
      → let (r, s') = read_total_length k value s in
        (r ≡ ok c.total_length) × P s'.world × (s'.device ≡ s.device)
  unfolding read_total_length index
  read_total_length-Serves P c value s serves p e =
      let (r, after, q, same) =
        raw_control-Serves P value 0 9 (Encode.encode c) s serves p (omega arith) in
      let total : c.total_length % 256 + 256 * (c.total_length / 256) ≡ c.total_length =
        omega arith in
      (ground (arith, r, after, total), q, same)

  second_pass :
      (value total : ℕ) (s : Attached W)
      → (read_total_length k value s).0 ≡ ok total
      → and_then (read_total_length k value s) (read_whole k value)
        ≡ read_whole k value total (read_total_length k value s).1
  second_pass value total s e =
      and_then_ok (read_total_length k value s) (read_whole k value) total e

  pub read_config_descriptor-Serves :
      (P : W → Type 0) (c : ConfigDescriptor) (i : ℕ) (s : Attached W)
      → Serves P s.device.fd (0x0200 + i) 0 (Encode.encode c)
      → P s.world
      → c.total_length ≡ length (Encode.encode c)
      → c.total_length < 65536
      → i < 256
      → let (r, s') = read_config_descriptor_impl k i s in
        (r ≡ ok c) × P s'.world × (s'.device ≡ s.device)
  unfolding read_config_descriptor_impl read_whole
  read_config_descriptor-Serves P c i s serves p e small hi =
      let value : bit_or 0x0200 i ≡ 0x0200 + i = bit_or-byte 2 i hi in
      let bytes = Encode.encode c in
      let n = c.total_length in
      let zeros : List ℕ = replicate n 0 in
      let size : length zeros ≡ n = length-replicate n 0 in
      let (first, q, same) = read_total_length-Serves P c (0x0200 + i) s serves p e in
      let s' : Attached W = (read_total_length k (0x0200 + i) s).1 in
      let again : Serves P s'.device.fd (0x0200 + i) 0 bytes = rw same serves in
      let (r, after, q', same') = raw_control-Serves P (0x0200 + i) 0 n bytes s' again q small in
      let full : take n bytes ++ drop (length bytes) zeros ≡ bytes =
        take-drop_whole n bytes zeros (omega arith) size in
      let parsed : Config.from_bytes bytes ≡ ok c =
        rw (append-nil bytes) at (config_from_bytes-encode c [] e) in
      rw (value, second_pass (0x0200 + i) n s first, r, after ∙ full, parsed)
        (refl, q', same' ∙ same)
