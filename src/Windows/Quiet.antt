-- ===== src/Windows/Quiet.antt =====
-- Reading the names of a device: it leaves the handles, the files and the sets of devices as they were.
use rust_usb.Base.{
  ℕ, suc, ◌-◌, ◌<◌, ◌≤◌, ◌≡◌, ◌⊎◌, refl, ◌∙◌, inl, inr, List, length, ◌==◌, Bool, Bool-cases, arith,
  replicate, ltb, ◌||◌,
}
use rust_usb.Error.{UsbError, Result, ok, err, panic, no_fuel, Returns, invalid_descriptor}
use rust_usb.Bytes.{index, slice}
use rust_usb.Text.{Text}
use rust_usb.Transfer.{ControlSetup, get_descriptor}
use rust_usb.Linux.Returns.{
  AnyError, bind-Returns, if-Returns, index-Returns, device-Returns, slice-Returns,
}
use rust_usb.Descriptor.Device.{DeviceDescriptor}
use rust_usb.Backend.{and_then, Op}
use rust_usb.Windows.{Win-cases, Win, done, failed, from_win, WinUsb, Attached}
use rust_usb.Windows.Device.{to_le_bytes}
use rust_usb.Windows.Ledger.{Ledger, Held}
use rust_usb.Windows.Files.{Files}
use rust_usb.Windows.Transfers.{
  set_pipe_timeout, read_control, read_device_descriptor, read_string_descriptor,
}
use rust_usb.Windows.SetupApi.{SetupApi, optional_string, indexed_names, or_unnamed, to_option}

-- No error at all.
abbrev pub Never : UsbError → Type 0
Never e = ⊥

pub from_win-Returns : {A : Type 0} (x : Win A) → Returns AnyError (from_win x)
from_win-Returns (done a) = tt
from_win-Returns (failed code) = tt

module _ {W : Type 0} (api : WinUsb W) (ledger : Ledger api) (account : Files api ledger) where
  -- The second world has the handles and the files of the first.
  abbrev pub Quiet : W → W → Type 0
  Quiet w w' =
      ((j : ℕ) → ledger.live w' j ≡ ledger.live w j)
      × (ledger.Sound w → ledger.Sound w')
      × (account.files w' ≡ account.files w)

  -- What Windows documents: `sets` counts the sets of devices that are not destroyed, `count` gives the
  -- number of interfaces in a set, and no other call touches a set. A control transfer moves no more
  -- than the buffer holds.
  pub record Sets (setup : SetupApi W) : Type 0 where
    pub sets : W → ℕ
    pub count : ℕ → ℕ
    pub few : (set : ℕ) → count set < 4294967296
    pub ended :
        (set i : ℕ) (w : W)
        → count set ≤ i
        → (code : ℕ) × (setup.enum_device_interfaces set i w ≡ failed code)
    pub sized :
        (set iface : ℕ) (w : W)
        → ((setup.detail_size set iface w).0 ≡ 0) ⊎ (4 ≤ (setup.detail_size set iface w).0)
    pub made :
        (set : ℕ) (w : W)
        → (setup.get_class_devs w).0 ≡ done set
        → sets (setup.get_class_devs w).1 ≡ suc (sets w)
    pub unmade :
        (code : ℕ) (w : W)
        → (setup.get_class_devs w).0 ≡ failed code
        → sets (setup.get_class_devs w).1 ≡ sets w
    pub destroyed : (set : ℕ) (w : W) → sets (setup.destroy_device_info_list set w) ≡ sets w - 1
    pub making : (w : W) → Quiet w (setup.get_class_devs w).1
    pub destroying : (set : ℕ) (w : W) → Quiet w (setup.destroy_device_info_list set w)
    pub control :
        (h : ℕ) (p : ControlSetup) (buf : List ℕ) (w : W)
        → let w' = (api.control_transfer h p buf w).2 in Quiet w w' × (sets w' ≡ sets w)
    pub transferred :
        (h n : ℕ) (p : ControlSetup) (buf : List ℕ) (w : W)
        → let (r, buf', _) = api.control_transfer h p buf w in
          r ≡ done n → (n ≤ length buf) × (length buf' ≡ length buf)
    pub policy :
        (h e id : ℕ) (bytes : List ℕ) (w : W)
        → let w' = (api.set_pipe_policy h e id bytes w).1 in Quiet w w' × (sets w' ≡ sets w)
    pub file_sets :
        (writable : Bool) (path : Text) (w : W) → sets (api.create_file writable path w).1 ≡ sets w
    pub initialize_sets : (file : ℕ) (w : W) → sets (api.initialize file w).1 ≡ sets w
    pub free_sets : (h : ℕ) (w : W) → sets (api.free h w) ≡ sets w
    pub close_sets : (h : ℕ) (w : W) → sets (api.close_handle h w) ≡ sets w

  module _ (setup : SetupApi W) (laws : Sets setup) where
    open laws use {sets, control, transferred, policy}

    -- The same device, in a world with the same handles, files and sets.
    abbrev pub Same : Attached W → Attached W → Type 0
    Same s s' = (s'.device ≡ s.device) × Quiet s.world s'.world × (sets s'.world ≡ sets s.world)

    pub Same-trans : (a b c : Attached W) → Same a b → Same b c → Same a c
    Same-trans a b c (d, (l, n, f), m) (d', (l', n', f'), m') =
        (d' ∙ d, (λ j. l' j ∙ l j, λ x. n' (n x), f' ∙ f), m' ∙ m)

    pub Same-refl : (a : Attached W) → Same a a
    Same-refl a = (refl, (λ j. refl, λ x. x, refl), refl)

    pub Same-Held : (s s' : Attached W) → Same s s' → Held api ledger s → Held api ledger s'
    Same-Held s s' (d, (l, n, f), m) x = record {
      exact = λ j. rw (l j, d) (x.exact j);
      distinct = rw d x.distinct;
      one_each = rw d x.one_each;
      cached = rw d x.cached;
      sound = n x.sound;
    }

    read_control-Same :
        (p : ControlSetup) (buf : List ℕ) (s : Attached W) → Same s (read_control api p buf s).2
    unfolding read_control set_pipe_timeout
    read_control-Same p buf s =
        let h = s.device.usb_handle in
        let w = (api.set_pipe_policy h 0x00 0x03 (to_le_bytes 1000) s.world).1 in
        let (kept, n) = policy h 0x00 0x03 (to_le_bytes 1000) s.world in
        let (kept', n') = control h p buf w in
        Same-trans s (record s { world = w }) (read_control api p buf s).2 (refl, kept, n)
          (refl, kept', n')

    read_string_descriptor-Returns :
        (i lang : ℕ) (s : Attached W) → Returns AnyError (read_string_descriptor api i lang s).0
    unfolding read_string_descriptor read_control set_pipe_timeout
    read_string_descriptor-Returns i lang s =
        let h = s.device.usb_handle in
        let w = (api.set_pipe_policy h 0x00 0x03 (to_le_bytes 1000) s.world).1 in
        let p = get_descriptor 0x03 i lang 255 in
        let zeros : List ℕ = replicate 255 0 in
        let (r, buf, _) = api.control_transfer h p zeros w in
        elim (Win-cases r) [
          | inl (code, e) ↦ rw (read_string_descriptor, e) tt
          | inr (n, e) ↦
              let (moved, size) = transferred h n p zeros w e in
              rw (read_string_descriptor, e)
                (if-Returns (ltb n 2) (err invalid_descriptor) _ tt λ long.
                  bind-Returns (index buf 0) _ (index-Returns buf 0 (ground arith)) λ b.
                    if-Returns (ltb b 2 || ltb n b) (err invalid_descriptor) _ tt λ inside.
                      bind-Returns (slice buf 2 b) _
                        (slice-Returns buf 2 b (ground arith) (ground arith)) λ content. tt)
        ]

    -- An operation that returns, with no error but those of `E`, and leaves the device and its handles.
    abbrev pub Reads :
        {A : Type 0} → (UsbError → Type 0) → Attached W → Result A × Attached W → Type 0
    Reads E s (r, s') = Returns E r × Same s s'

    and_then-Reads :
        {A B : Type 0} (E : UsbError → Type 0) (s : Attached W) (x : Result A × Attached W)
        (f : A → Op (Attached W) B)
        → Reads E s x
        → ((a : A) (t : Attached W) → Reads E t (f a t))
        → Reads E s (and_then x f)
    and_then-Reads E s (ok a, t) f (_, same) go =
        let (returns, same') = go a t in (returns, Same-trans s t (f a t).1 same same')
    and_then-Reads E s (err e, t) f x go = x
    and_then-Reads E s (panic, t) f x go = x
    and_then-Reads E s (no_fuel, t) f x go = x

    to_option-Returns :
        {A : Type 0} (r : Result A) → Returns AnyError r → Returns Never (to_option r)
    to_option-Returns (ok a) x = tt
    to_option-Returns (err e) x = tt
    to_option-Returns panic x = x
    to_option-Returns no_fuel x = x

    optional_string-Reads : (i : ℕ) (s : Attached W) → Reads Never s (optional_string api i s)
    unfolding optional_string read_string_descriptor
    optional_string-Reads i s = elim (Bool-cases (i == 0)) [
      | inl nameless ↦ rw (optional_string, nameless) (tt, Same-refl s)
      | inr named ↦
          rw (optional_string, named)
            (
              to_option-Returns _ (read_string_descriptor-Returns i 0x0409 s),
              read_control-Same (get_descriptor 0x03 i 0x0409 255) (replicate 255 0) s,
            )
    ]

    indexed_names-Reads :
        (dd : DeviceDescriptor) (s : Attached W) → Reads Never s (indexed_names api dd s)
    unfolding indexed_names
    indexed_names-Reads dd s =
        and_then-Reads Never s _ _ (optional_string-Reads dd.manufacturer_index s) λ a s1.
          and_then-Reads Never s1 _ _ (optional_string-Reads dd.product_index s1) λ b s2.
            and_then-Reads Never s2 _ _ (optional_string-Reads dd.serial_number_index s2)
              λ c s3. (tt, Same-refl s3)

    or_unnamed-Reads :
        (s : Attached W) (x : Result DeviceDescriptor × Attached W)
        → Reads AnyError s x
        → Reads Never s (or_unnamed api x)
    unfolding indexed_names or_unnamed
    or_unnamed-Reads s (ok dd, t) (_, same) =
        let (returns, same') = indexed_names-Reads dd t in
        (returns, Same-trans s t (indexed_names api dd t).1 same same')
    or_unnamed-Reads s (err e, t) x = (tt, x.1)
    or_unnamed-Reads s (panic, t) x = absurd x.0
    or_unnamed-Reads s (no_fuel, t) x = absurd x.0

    read_device_descriptor-Reads :
        (s : Attached W) → Reads AnyError s (read_device_descriptor api s)
    unfolding read_device_descriptor
    read_device_descriptor-Reads s =
        let (r, buf, _) = read_control api (get_descriptor 0x01 0 0x0000 18) (replicate 18 0) s in
        (
          bind-Returns r _ (from_win-Returns _) (λ n. device-Returns buf),
          read_control-Same (get_descriptor 0x01 0 0x0000 18) (replicate 18 0) s,
        )

    -- The names of a device are read without a panic, and leave it and its handles as they were.
    pub names-Reads :
        (s : Attached W) → Reads Never s (or_unnamed api (read_device_descriptor api s))
    names-Reads s =
        or_unnamed-Reads s (read_device_descriptor api s) (read_device_descriptor-Reads s)
