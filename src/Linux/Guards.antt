-- ===== src/Linux/Guards.antt =====
-- What holds over any kernel: no read panics, transfers check the direction of their endpoint, and an
-- isochronous transfer succeeds only if every packet does.
use rust_usb.Base.{
  ℕ, ◌+◌, ◌<◌, ◌≡◌, ◌≢◌, ◌↔◌, List, [], ◌∷◌, Option, none, some, arith, length, take, get_or,
  replicate, All, bit_and-128, ltb, ◌*◌, ◌||◌, bit_or, lookup, nat_eq,
}
use rust_usb.Error.{Result, ok, err, other, Returns, invalid_descriptor}
use rust_usb.Endpoint.{EndpointInfo}
use rust_usb.Bytes.{IsByte, u16_from_le_bytes, index-lt}
use rust_usb.Linux.{
  Kernel, Attached, Request, ℤ, pos, negsuc, Reaped, null, submitted, another, UsbdevfsIsoUrb,
  UsbdevfsIsoPacketDesc, checked, map_errno, ioctl_usbdevfs_control,
}
use rust_usb.Linux.Device.{
  raw_control, read_total_length, read_whole, read_config_descriptor_impl, read_device_descriptor,
  read_string_descriptor, get_alternate_setting, refresh_endpoint_cache, get_pipe_info,
  control_transfer, bulk_read, bulk_write, hit_or_refresh, found_or_not,
}
use rust_usb.Linux.Isoch.{urb_result, frame_error, at_least_zero, isoch_read, isoch_write}
use rust_usb.Linux.Backend.{linux_device}
use rust_usb.Linux.Returns.{
  AnyError, bind-Returns, if-Returns, index-Returns, device-Returns, config-Returns,
  and_then-Returns, byte_at, zeros-IsByte, slice-Returns,
}

module _ {W : Type 0} (k : Kernel W) where
  -- An ioctl writes bytes into the buffer and leaves its size.
  abbrev pub WritesBytes : Type 0
  WritesBytes =
      (fd : ℕ) (request : Request) (buf : List ℕ) (w : W)
      → (length (k.ioctl fd request buf w).1 ≡ length buf)
        × (All IsByte buf → All IsByte (k.ioctl fd request buf w).1)

  map_errno-Returns : (ret : ℤ) (w : W) → Returns AnyError (map_errno (checked k ret w))
  map_errno-Returns (pos n) w = tt
  map_errno-Returns (negsuc n) w = tt

  raw_control-Returns :
      (t q v i : ℕ) (buf : List ℕ) (ms : ℕ) (s : Attached W)
      → WritesBytes
      → All IsByte buf
      → let (r, buf', _) = raw_control k t q v i buf ms s in
        Returns AnyError r × (length buf' ≡ length buf) × All IsByte buf'
  unfolding raw_control ioctl_usbdevfs_control
  raw_control-Returns t q v i buf ms s writes bytes =
      let (size, kept) = writes _ _ buf _ in (map_errno-Returns _ _, size, kept bytes)

  device_descriptor-Returns :
      (s : Attached W) → WritesBytes → Returns AnyError (read_device_descriptor k s).0
  unfolding read_device_descriptor
  device_descriptor-Returns s writes =
      let zeros : List ℕ = replicate 18 0 in
      let (r, size, _) =
        raw_control-Returns 0x80 0x06 0x0100 0 zeros 5000 s writes (zeros-IsByte 18) in
      bind-Returns _ _ r (λ n. if-Returns (ltb n 18) _ _ tt (λ _. device-Returns _))

  total_length-Returns :
      (value : ℕ) (s : Attached W) → WritesBytes → Returns AnyError (read_total_length k value s).0
  unfolding read_total_length
  total_length-Returns value s writes =
      let zeros : List ℕ = replicate 9 0 in
      let (r, size, _) =
        raw_control-Returns 0x80 0x06 value 0 zeros 5000 s writes (zeros-IsByte 9) in
      bind-Returns _ _ r λ n. bind-Returns _ _ (index-Returns _ 2 (omega arith)) λ lo.
        bind-Returns _ _ (index-Returns _ 3 (omega arith)) λ hi.
          let total = u16_from_le_bytes lo hi in
          if-Returns (ltb n 9 || ltb total 9) (err invalid_descriptor) (ok total) tt (λ _. tt)

  config_descriptor-Returns :
      (i : ℕ) (s : Attached W)
      → WritesBytes
      → Returns AnyError (read_config_descriptor_impl k i s).0
  unfolding read_config_descriptor_impl read_whole
  config_descriptor-Returns i s writes =
      and_then-Returns _ _ (total_length-Returns _ s writes) λ n s'.
        let (r, _, _) =
          raw_control-Returns 0x80 0x06 _ 0 (replicate n 0) 5000 s' writes (zeros-IsByte n) in
        bind-Returns _ _ r (λ _. config-Returns _)

  string_descriptor-Returns :
      (i lang : ℕ) (s : Attached W)
      → WritesBytes
      → Returns AnyError (read_string_descriptor k i lang s).0
  unfolding read_string_descriptor
  string_descriptor-Returns i lang s writes =
      let zeros : List ℕ = replicate 255 0 in
      let value = bit_or (0x03 * 256) i in
      let (r, size, bytes) =
        raw_control-Returns 0x80 0x06 value lang zeros 5000 s writes (zeros-IsByte 255) in
      let buf = (raw_control k 0x80 0x06 value lang zeros 5000 s).1 in
      let small : get_or buf 0 0 < 256 = byte_at buf 0 bytes in
      bind-Returns _ _ r λ n. if-Returns (ltb n 2) _ _ tt λ _. rw (index-lt buf 0 (omega arith)) (
        if-Returns (ltb (get_or buf 0 0) 2 || ltb n (get_or buf 0 0)) _ _ tt λ within.
          bind-Returns _ _ (slice-Returns buf 2 (get_or buf 0 0) (ground arith) (omega arith))
            (λ _. tt))

  alternate_setting-Returns :
      (i : ℕ) (s : Attached W) → WritesBytes → Returns AnyError (get_alternate_setting k i s).0
  unfolding get_alternate_setting control_transfer
  alternate_setting-Returns i s writes =
      let zeros : List ℕ = replicate 1 0 in
      let (r, size, _) = raw_control-Returns 0x81 0x0A 0 i zeros _ s writes (zeros-IsByte 1) in
      bind-Returns _ _ r (λ n. if-Returns (ltb n 1) _ _ tt (λ _. index-Returns _ 0 (omega arith)))

  found-Returns : (e : ℕ) (o : Option EndpointInfo) → Returns AnyError (found_or_not e o)
  found-Returns e none = tt
  found-Returns e (some info) = tt

  hit_or_refresh-Returns :
      (e : ℕ) (o : Option EndpointInfo) (s : Attached W)
      → WritesBytes
      → Returns AnyError (hit_or_refresh k e o s).0
  unfolding refresh_endpoint_cache
  hit_or_refresh-Returns e (some info) s writes = tt
  hit_or_refresh-Returns e none s writes =
      and_then-Returns _ _ (and_then-Returns _ _ (config_descriptor-Returns 0 s writes) (λ _ _. tt))
        (λ _ s'. found-Returns e (lookup e s'.device.endpoint_cache))

  -- Whatever the kernel answers and whatever bytes it writes, as long as it writes into the buffers
  -- only: reading a descriptor, an alternate setting or a pipe's information returns a value or an
  -- error, and never panics.
  pub reads_never_panic :
      (s : Attached W) (i lang : ℕ)
      → WritesBytes
      → let dev = linux_device k in
        Returns AnyError (dev.read_device_descriptor s).0
        × Returns AnyError (dev.read_config_descriptor i s).0
        × Returns AnyError (dev.read_string_descriptor i lang s).0
        × Returns AnyError (dev.get_alternate_setting i s).0
        × Returns AnyError (dev.get_pipe_info i s).0
  unfolding get_pipe_info
  reads_never_panic s i lang writes = (
    device_descriptor-Returns s writes,
    config_descriptor-Returns i s writes,
    string_descriptor-Returns i lang s writes,
    alternate_setting-Returns i s writes,
    hit_or_refresh-Returns i _ s writes,
  )

  -- The direction in an endpoint's address is checked before the kernel is asked: a read from an OUT
  -- endpoint, one below 128, is an error that leaves the buffer and the device alone, and so is a
  -- write to an IN endpoint, for bulk, interrupt, async and isochronous transfers alike.
  pub transfers_check_direction :
      (n timeout : ℕ) (buf : List ℕ) (s : Attached W)
      → n < 128
      → let dev = linux_device k in
        let no_in : Result ℕ × List ℕ × Attached W =
          (err (other "bulk_read requires an IN endpoint, got {:#04x}" (n ∷ [])), buf, s) in
        let no_out : Result ℕ × Attached W =
          (err (other "bulk_write requires an OUT endpoint, got {:#04x}" ((n + 128) ∷ [])), s) in
        (dev.bulk_read n buf timeout s ≡ no_in)
        × (dev.interrupt_read n buf timeout s ≡ no_in)
        × (dev.async_bulk_read n buf timeout s ≡ no_in)
        × (dev.async_interrupt_read n buf timeout s ≡ no_in)
        × (dev.isoch_read n buf s
            ≡ (err (other "isoch_read requires an IN endpoint, got {:#04x}" (n ∷ [])), buf, s))
        × (dev.bulk_write (n + 128) buf timeout s ≡ no_out)
        × (dev.interrupt_write (n + 128) buf timeout s ≡ no_out)
        × (dev.async_bulk_write (n + 128) buf timeout s ≡ no_out)
        × (dev.async_interrupt_write (n + 128) buf timeout s ≡ no_out)
        × (dev.isoch_write (n + 128) buf s
            ≡ (err (other "isoch_write requires an OUT endpoint, got {:#04x}" ((n + 128) ∷ [])), s))
  unfolding bulk_read bulk_write isoch_read isoch_write
  transfers_check_direction n timeout buf s small =
      ground (arith, bit_and-128 n (omega arith), bit_and-128 (n + 128) (omega arith))

all_done : (fs : List UsbdevfsIsoPacketDesc) → (frame_error fs ≡ ok tt) ↔ All (λ f. f.status ≡ 0) fs
unfolding frame_error
all_done [] = ground arith
all_done (f ∷ fs) = ground (arith, all_done fs)

-- A reaped URB counts as a transfer exactly if it is the submitted one, or no pointer came back, and
-- neither it nor any of its packets has a status; the count is then its actual length, at least zero.
pub urb_result_lem :
    (n m : ℕ) (reaped : Reaped) (urb : UsbdevfsIsoUrb)
    → (urb_result n reaped urb ≡ ok m) ↔ (
        (reaped ≢ another)
        × (urb.status ≡ pos 0)
        × All (λ f. f.status ≡ 0) (take n urb.iso_frame_desc)
        × (m ≡ at_least_zero urb.actual_length))
unfolding urb_result
urb_result_lem n m another urb = ground arith
urb_result_lem n m submitted urb = ground (arith, all_done (take n urb.iso_frame_desc))
urb_result_lem n m null urb = ground (arith, all_done (take n urb.iso_frame_desc))
