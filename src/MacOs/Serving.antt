-- ===== src/MacOs/Serving.antt =====
-- Configurations over IOKit calls that serve a device's descriptors, and claims of interfaces there.
use rust_usb.Base.{
  ℕ, ◌+◌, ◌*◌, ◌/◌, ◌%◌, ◌^◌, ◌<◌, ◌≡◌, ◌≢◌, refl, ◌∙◌, ap, inl, inr, List, [], ◌∷◌, ◌++◌, arith,
  length, take, drop, replicate, min, bit_or, bit_or-byte, length-replicate, take-drop_whole,
  append-nil, ◌==◌, ◌||◌, if◌then◌else◌, Bool, true, false, Bool-cases, contains,
}
use rust_usb.Error.{Result, ok, err, other}
use rust_usb.Bytes.{index}
use rust_usb.Descriptor.Config.{ConfigDescriptor}
use rust_usb.Descriptor.Config
use rust_usb.Descriptor.Config.Encode
use rust_usb.Descriptor.Config.RoundTrip.{config_from_bytes-encode}
use rust_usb.Backend.{and_then, and_then_ok}
use rust_usb.MacOs.Iokit.{Iokit, Attached}
use rust_usb.MacOs.Device.{
  has_interface, insert_claim, raw_control, get_interface_alt_setting, read_total_length, read_full,
  read_config_descriptor, interface_exists, claim_existing, claim_interface,
}

module _ {W : Type 0} (iokit : Iokit W) where
  -- What IOKit documents of a request that reads `bytes`: as many of them as there is room for are put at
  -- the front of the buffer, and their number is given. `P` is what holds of the world as long as the
  -- device is there.
  abbrev pub Serves : (W → Type 0) → ℕ → ℕ → ℕ → ℕ → ℕ → ℕ → List ℕ → Type 0
  Serves P intf request_type request value index timeout bytes =
      (buf : List ℕ) (w : W)
      → P w
      → length buf < 65536
      → let (kr, done, after, w') =
          iokit.device_request_to intf
            (record {
              request_type = request_type;
              request = request;
              value = value;
              index = index;
              length = length buf;
              no_data_timeout = timeout;
              completion_timeout = timeout;
            })
            buf w in
        (kr ≡ 0)
        × (done ≡ min (length buf) (length bytes))
        × (after ≡ take (length buf) bytes ++ drop (length bytes) buf)
        × P w'

  raw_control-buffer :
      (P : W → Type 0) (request_type request value index timeout : ℕ) (buf bytes : List ℕ)
      (s : Attached W)
      → s.device.device_intf ≢ 0
      → Serves P s.device.device_intf request_type request value index timeout bytes
      → P s.world
      → length buf < 65536
      → let (r, after, s') = raw_control iokit request_type request value index buf timeout s in
        (r ≡ ok (min (length buf) (length bytes)))
        × (after ≡ take (length buf) bytes ++ drop (length bytes) buf)
        × P s'.world
        × (s'.device ≡ s.device)
  unfolding raw_control
  raw_control-buffer P request_type request value index timeout buf bytes s nonnull serves p h =
      let (kr, done, after, q) = serves buf s.world p h in
      let small : length buf % 2 ^ 16 ≡ length buf = omega arith in
      let there : s.device.device_intf == 0 ≡ false = ground arith in
      rw (there, small, kr) (ap ok done, after, q, refl)

  -- A served read of `n` bytes into a zeroed buffer.
  raw_control-Serves :
      (P : W → Type 0) (request_type request value index timeout n : ℕ) (bytes : List ℕ)
      (s : Attached W)
      → s.device.device_intf ≢ 0
      → Serves P s.device.device_intf request_type request value index timeout bytes
      → P s.world
      → n < 65536
      → let (r, after, s') =
          raw_control iokit request_type request value index (replicate n 0) timeout s in
        (r ≡ ok (min n (length bytes)))
        × (after ≡ take n bytes ++ drop (length bytes) (replicate n 0))
        × P s'.world
        × (s'.device ≡ s.device)
  raw_control-Serves P request_type request value index timeout n bytes s nonnull serves p h =
      let zeros : List ℕ = replicate n 0 in
      let size : length zeros ≡ n = length-replicate n 0 in
      rw size at (
        raw_control-buffer P request_type request value index timeout zeros bytes s nonnull serves p
          (rw size h))

  read_total_length-Serves :
      (P : W → Type 0) (c : ConfigDescriptor) (value : ℕ) (s : Attached W)
      → s.device.device_intf ≢ 0
      → Serves P s.device.device_intf 0x80 0x06 value 0 5000 (Encode.encode c)
      → P s.world
      → c.total_length ≡ length (Encode.encode c)
      → let (r, s') = read_total_length iokit value s in
        (r ≡ ok c.total_length) × P s'.world × (s'.device ≡ s.device)
  unfolding read_total_length index
  read_total_length-Serves P c value s nonnull serves p e =
      let (r, after, q, same) =
        raw_control-Serves P 0x80 0x06 value 0 5000 9 (Encode.encode c) s nonnull serves p
          (omega arith) in
      let total : c.total_length % 256 + 256 * (c.total_length / 256) ≡ c.total_length =
        omega arith in
      (ground (arith, r, after, total), q, same)

  -- The two passes return the configuration that is served under its index.
  read_config_descriptor-Serves :
      (P : W → Type 0) (c : ConfigDescriptor) (i : ℕ) (s : Attached W)
      → s.device.device_intf ≢ 0
      → Serves P s.device.device_intf 0x80 0x06 (0x0200 + i) 0 5000 (Encode.encode c)
      → P s.world
      → c.total_length ≡ length (Encode.encode c)
      → c.total_length < 65536
      → i < 256
      → let (r, s') = read_config_descriptor iokit i s in
        (r ≡ ok c) × P s'.world × (s'.device ≡ s.device)
  unfolding read_config_descriptor read_full
  read_config_descriptor-Serves P c i s nonnull serves p e small hi =
      let value : bit_or 0x0200 i ≡ 0x0200 + i = bit_or-byte 2 i hi in
      let bytes = Encode.encode c in
      let n = c.total_length in
      let zeros : List ℕ = replicate n 0 in
      let (first, q, same) = read_total_length-Serves P c (0x0200 + i) s nonnull serves p e in
      let pass : Result ℕ × Attached W = read_total_length iokit (0x0200 + i) s in
      let s' : Attached W = pass.1 in
      let again : Serves P s'.device.device_intf 0x80 0x06 (0x0200 + i) 0 5000 bytes =
        rw same serves in
      let (r, after, q', same') =
        raw_control-Serves P 0x80 0x06 (0x0200 + i) 0 5000 n bytes s' (rw same nonnull) again q
          small in
      let full : take n bytes ++ drop (length bytes) zeros ≡ bytes =
        take-drop_whole n bytes zeros (omega arith) (length-replicate n 0) in
      let parsed : Config.from_bytes bytes ≡ ok c =
        rw (append-nil bytes) at (config_from_bytes-encode c [] e) in
      let second : and_then pass (read_full iokit (0x0200 + i))
          ≡ read_full iokit (0x0200 + i) n s' =
        and_then_ok pass (read_full iokit (0x0200 + i)) n first in
      rw (value, second, r, after ∙ full, parsed) (refl, q', same' ∙ same)

  alt_setting-Serves :
      (P : W → Type 0) (i alt : ℕ) (s : Attached W)
      → s.device.device_intf ≢ 0
      → Serves P s.device.device_intf 0x81 0x0A 0 i 1000 (alt ∷ [])
      → P s.world
      → (get_interface_alt_setting iokit i 1000 s).0 ≡ ok alt
  unfolding get_interface_alt_setting index
  alt_setting-Serves P i alt s nonnull serves p =
      let (r, after, q, same) =
        raw_control-Serves P 0x81 0x0A 0 i 1000 1 (alt ∷ []) s nonnull serves p (omega arith) in
      ground (arith, r, after)

  interface_exists-Serves :
      (P : W → Type 0) (c : ConfigDescriptor) (i : ℕ) (s : Attached W)
      → s.device.device_intf ≢ 0
      → Serves P s.device.device_intf 0x80 0x06 0x0200 0 5000 (Encode.encode c)
      → P s.world
      → c.total_length ≡ length (Encode.encode c)
      → c.total_length < 65536
      → let (r, s') = interface_exists iokit i s in
        (r ≡ ok (has_interface i c.interfaces)) × P s'.world × (s'.device ≡ s.device)
  unfolding interface_exists
  interface_exists-Serves P c i s nonnull serves p e small =
      let (r, q, same) =
        read_config_descriptor-Serves P c 0 s nonnull serves p e small (omega arith) in
      (rw r refl, q, same)

  claim_existing-answered :
      (i alt : ℕ) (there : Bool) (s : Attached W)
      → (get_interface_alt_setting iokit i 1000 s).0 ≡ ok alt
      → (claim_existing iokit i there s).0
        ≡ (if there then ok tt else err (other "interface {} not found in configuration" (i ∷ [])))
  unfolding claim_existing
  claim_existing-answered i alt false s answered = refl
  claim_existing-answered i alt true s answered =
      ap (λ x. x.0)
        (and_then_ok (get_interface_alt_setting iokit i 1000 s)
          (λ _ t. (ok tt, insert_claim iokit i t)) alt answered)

  -- On a device that is open and there, that serves a first configuration of fewer than 65536 bytes and
  -- the alternate setting of the interface: claiming the interface succeeds if it is claimed already
  -- or if the configuration has an interface of this number, and is the error of an interface that is
  -- not in the configuration otherwise.
  pub claim_interface-Serves :
      (P : W → Type 0) (c : ConfigDescriptor) (i alt : ℕ) (s : Attached W)
      → s.device.device_intf ≢ 0
      → Serves P s.device.device_intf 0x80 0x06 0x0200 0 5000 (Encode.encode c)
      → Serves P s.device.device_intf 0x81 0x0A 0 i 1000 (alt ∷ [])
      → P s.world
      → c.total_length ≡ length (Encode.encode c)
      → c.total_length < 65536
      → (claim_interface iokit i s).0 ≡ (
          if contains i s.device.claimed_interfaces || has_interface i c.interfaces
          then ok tt
          else err (other "interface {} not found in configuration" (i ∷ [])))
  unfolding claim_interface
  claim_interface-Serves P c i alt s nonnull serves answers p e small =
      let (r, q, same) = interface_exists-Serves P c i s nonnull serves p e small in
      let looked : Result Bool × Attached W = interface_exists iokit i s in
      let s' : Attached W = looked.1 in
      let answered : (get_interface_alt_setting iokit i 1000 s').0 ≡ ok alt =
        alt_setting-Serves P i alt s' (rw same nonnull) (rw same answers) q in
      let then_claim : and_then looked (claim_existing iokit i)
          ≡ claim_existing iokit i (has_interface i c.interfaces) s' =
        and_then_ok looked (claim_existing iokit i) (has_interface i c.interfaces) r in
      elim (Bool-cases (contains i s.device.claimed_interfaces)) [
        | inl held ↦ rw held refl
        | inr fresh ↦
            rw (fresh, then_claim)
              (claim_existing-answered i alt (has_interface i c.interfaces) s' answered)
      ]
