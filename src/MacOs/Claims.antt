-- ===== src/MacOs/Claims.antt =====
-- The set of claimed interfaces of a device under claims and releases.
use rust_usb.Base.{
  ℕ, ◌≡◌, bit_or, ◌*◌, ==_iff, ap, refl, ◌∙◌, inl, inr, List, [], ◌∷◌, ◌==◌, ◌&&◌, not,
  if◌then◌else◌, Bool, true, false, Bool-cases, arith, contains, IsDistinct,
}
use rust_usb.Error.{Result, ok, err, panic, no_fuel}
use rust_usb.Backend.{and_then, Op}
use rust_usb.MacOs.Iokit.{Iokit, MacOsDevice, Attached}
use rust_usb.MacOs.Device.{
  insert_claim, remove_claim, without, raw_control, get_interface_alt_setting,
  set_interface_alt_setting, read_total_length, read_full, read_config_descriptor, interface_exists,
  claim_existing, claim_interface, release_interface,
}

contains-without :
    (i j : ℕ) (xs : List ℕ) → contains j (without i xs) ≡ (contains j xs && not (i == j))
contains-without i j [] = refl
contains-without i j (x ∷ xs) = ground (arith, contains-without i j xs)

without-IsDistinct : (i : ℕ) (xs : List ℕ) → IsDistinct xs → IsDistinct (without i xs)
without-IsDistinct i [] d = tt
without-IsDistinct i (x ∷ xs) (hx, d) =
    ground (arith, contains-without i x xs, without-IsDistinct i xs d)

-- The device of a state that an operation leaves is the one that it got.
abbrev Keeps : {W A : Type 0} → Attached W → Result A × Attached W → Type 0
Keeps s x = x.1.device ≡ s.device

-- What an operation on the claim of one interface leaves. `b` is whether it is claimed after a success.
-- The set stays one without duplicates, and nothing else of the device changes.
abbrev pub Claims : {W : Type 0} → Bool → ℕ → Attached W → Result (Unit {0}) × Attached W → Type 0
Claims b i s (ok _, t) =
    ((j : ℕ)
      → contains j t.device.claimed_interfaces
        ≡ (if i == j then b else contains j s.device.claimed_interfaces))
    × (IsDistinct s.device.claimed_interfaces → IsDistinct t.device.claimed_interfaces)
    × (record t.device { claimed_interfaces = s.device.claimed_interfaces } ≡ s.device)
Claims b i s (err _, t) = t.device ≡ s.device
Claims b i s (panic, t) = t.device ≡ s.device
Claims b i s (no_fuel, t) = t.device ≡ s.device

and_then-Keeps :
    {W A B : Type 0} (s : Attached W) (x : Result A × Attached W) (f : A → Op (Attached W) B)
    → Keeps s x
    → ((a : A) (t : Attached W) → t.device ≡ s.device → Keeps s (f a t))
    → Keeps s (and_then x f)
and_then-Keeps s (ok a, t) f h k = k a t h
and_then-Keeps s (err e, t) f h k = h
and_then-Keeps s (panic, t) f h k = h
and_then-Keeps s (no_fuel, t) f h k = h

and_then-Claims :
    {W A : Type 0} (b : Bool) (i : ℕ) (s : Attached W) (x : Result A × Attached W)
    (f : A → Op (Attached W) (Unit {0}))
    → Keeps s x
    → ((a : A) (t : Attached W) → t.device ≡ s.device → Claims b i s (f a t))
    → Claims b i s (and_then x f)
and_then-Claims b i s (ok a, t) f h k = k a t h
and_then-Claims b i s (err e, t) f h k = h
and_then-Claims b i s (panic, t) f h k = h
and_then-Claims b i s (no_fuel, t) f h k = h

module _ {W : Type 0} (iokit : Iokit W) where
  raw_control-Keeps :
      (request_type request value index : ℕ) (buf : List ℕ) (timeout_ms : ℕ) (s : Attached W)
      → (raw_control iokit request_type request value index buf timeout_ms s).2.device ≡ s.device
  unfolding raw_control
  raw_control-Keeps request_type request value index buf timeout_ms s = ground arith

  read_total_length-Keeps : (value : ℕ) (s : Attached W) → Keeps s (read_total_length iokit value s)
  unfolding read_total_length
  read_total_length-Keeps value s = raw_control-Keeps _ _ _ _ _ _ s

  read_full-Keeps : (value total : ℕ) (s : Attached W) → Keeps s (read_full iokit value total s)
  unfolding read_full
  read_full-Keeps value total s = raw_control-Keeps _ _ _ _ _ _ s

  pub read_config_descriptor-Keeps :
      (i : ℕ) (s : Attached W) → (read_config_descriptor iokit i s).1.device ≡ s.device
  unfolding read_config_descriptor
  read_config_descriptor-Keeps i s =
      let value = bit_or (2 * 256) i in
      and_then-Keeps s (read_total_length iokit value s) (read_full iokit value)
        (read_total_length-Keeps value s) λ total t same. read_full-Keeps value total t ∙ same

  interface_exists-Keeps : (i : ℕ) (s : Attached W) → Keeps s (interface_exists iokit i s)
  unfolding interface_exists
  interface_exists-Keeps i s = read_config_descriptor-Keeps 0 s

  get_interface_alt_setting-Keeps :
      (i timeout_ms : ℕ) (s : Attached W) → Keeps s (get_interface_alt_setting iokit i timeout_ms s)
  unfolding get_interface_alt_setting
  get_interface_alt_setting-Keeps i timeout_ms s = raw_control-Keeps _ _ _ _ _ _ s

  set_interface_alt_setting-Keeps :
      (i alt timeout_ms : ℕ) (s : Attached W)
      → Keeps s (set_interface_alt_setting iokit i alt timeout_ms s)
  unfolding set_interface_alt_setting
  set_interface_alt_setting-Keeps i alt timeout_ms s = raw_control-Keeps _ _ _ _ _ _ s

  unchanged-Claims :
      (b : Bool) (i : ℕ) (s : Attached W)
      → contains i s.device.claimed_interfaces ≡ b
      → Claims b i s (ok tt, s)
  unchanged-Claims b i s e = (λ j. ground (arith, ==_iff i j), λ d. d, refl)

  insert_claim-Claims :
      (i : ℕ) (s t : Attached W)
      → contains i s.device.claimed_interfaces ≡ false
      → t.device ≡ s.device
      → Claims true i s (ok tt, insert_claim iokit i t)
  insert_claim-Claims i s t fresh same = (
    λ j. rw same (ground arith),
    λ d. rw same (fresh, d),
    ap {A = MacOsDevice} (λ d. record d { claimed_interfaces = s.device.claimed_interfaces }) same,
  )

  remove_claim-Claims :
      (i : ℕ) (s t : Attached W)
      → t.device ≡ s.device
      → Claims false i s (ok tt, remove_claim iokit i t)
  remove_claim-Claims i s t same =
      let claimed = s.device.claimed_interfaces in
      (
        λ j. rw same (ground (arith, contains-without i j claimed)),
        λ d. rw same (without-IsDistinct i claimed d),
        ap {A = MacOsDevice} (λ d. record d { claimed_interfaces = claimed }) same,
      )

  claim_existing-Claims :
      (i : ℕ) (there : Bool) (s t : Attached W)
      → contains i s.device.claimed_interfaces ≡ false
      → t.device ≡ s.device
      → Claims true i s (claim_existing iokit i there t)
  unfolding claim_existing
  claim_existing-Claims i false s t fresh same = same
  claim_existing-Claims i true s t fresh same =
      and_then-Claims true i s (get_interface_alt_setting iokit i 1000 t) _
        (get_interface_alt_setting-Keeps i 1000 t ∙ same)
        (λ alt u same'. insert_claim-Claims i s u fresh same')

  -- Claiming and releasing an interface on every path: after a success the claimed interfaces are those
  -- from before, with or without this one, without duplicates if there were none, and all else of the
  -- device is as it was. After an error, of the device at any request included, the device is as it
  -- was: a release that fails leaves the interface claimed.
  pub claim_and_release_exact :
      (i : ℕ) (s : Attached W)
      → Claims true i s (claim_interface iokit i s) × Claims false i s (release_interface iokit i s)
  unfolding claim_interface release_interface
  claim_and_release_exact i s = elim (Bool-cases (contains i s.device.claimed_interfaces)) [
    | inl held ↦ rw held (
      unchanged-Claims true i s held,
      and_then-Claims false i s (set_interface_alt_setting iokit i 0 1000 s)
          (λ _ t. (ok tt, remove_claim iokit i t)) (set_interface_alt_setting-Keeps i 0 1000 s)
          (λ _ t same. remove_claim-Claims i s t same),
    )
    | inr fresh ↦ rw fresh (
      and_then-Claims true i s (interface_exists iokit i s) (claim_existing iokit i)
          (interface_exists-Keeps i s)
          (λ there t same. claim_existing-Claims i there s t fresh same),
      unchanged-Claims false i s fresh,
    )
  ]
