-- ===== src/Windows/Device.antt =====
-- usb-lib/src/backend/windows.rs, `impl WinUsbDevice`, its `Drop`, and the operations on interfaces
-- and pipes of `impl UsbDevice for WinUsbDevice`.
use rust_usb.Base.{
  ℕ, zero, suc, ◌+◌, List, [], ◌∷◌, ◌++◌, Option, none, some, ◌==◌, if◌then◌else◌, Bool, false,
  lookup, insert, nat_eq, ◌%◌, ◌/◌,
}
use rust_usb.Error.{Result, ok, err, other}
use rust_usb.Backend.{Op}
use rust_usb.Windows.{Win, done, failed, WinUsb, WinUsbDevice, Attached, PipeInformation}

-- `assoc_handles.iter().find(|(n, _)| *n == interface).map(|(_, h)| *h)`
abbrev pub find_handle : ℕ → List (ℕ × ℕ) → Option ℕ
find_handle interface [] = none
find_handle interface ((n, h) ∷ rest) =
    if n == interface then some h else find_handle interface rest

-- `assoc_handles` without the entry at the first position of the interface
abbrev pub remove_handle : ℕ → List (ℕ × ℕ) → List (ℕ × ℕ)
remove_handle interface [] = []
remove_handle interface ((n, h) ∷ rest) =
    if n == interface then rest else (n, h) ∷ remove_handle interface rest

abbrev pub handles : List (ℕ × ℕ) → List ℕ
handles [] = []
handles ((_, h) ∷ rest) = h ∷ handles rest

-- `endpoint_cache.retain(|_, cached_h| *cached_h != h)`
abbrev pub evict : ℕ → List (ℕ × ℕ) → List (ℕ × ℕ)
evict h [] = []
evict h ((e, c) ∷ rest) = if c == h then evict h rest else (e, c) ∷ evict h rest

-- `timeout_ms.to_le_bytes()`
abbrev pub to_le_bytes : ℕ → List ℕ
to_le_bytes v = (v % 256) ∷ (v / 256 % 256) ∷ (v / 65536 % 256) ∷ (v / 16777216 % 256) ∷ []

module _ {W : Type 0} (api : WinUsb W) where
  unfoldable pub interface_handle : ℕ → WinUsbDevice → Result ℕ
  interface_handle interface d =
      if interface == 0 then ok d.usb_handle else (elim (find_handle interface d.assoc_handles) [
        | some h ↦ ok h
        | none ↦ err (other "interface {} not claimed; call claim_interface first" (interface ∷ []))
      ])

  -- `for idx in 0u8..32`, from `idx` on with `left` to go: the first pipe with the address.
  unfoldable pub find_pipe : ℕ → ℕ → W → ℕ → ℕ → Option PipeInformation
  find_pipe endpoint h w idx zero = none
  find_pipe endpoint h w idx (suc left) =
      let rest = find_pipe endpoint h w (idx + 1) left in
      elim (api.query_pipe h idx w) [
        | failed _ ↦ none
        | done info ↦ if info.pipe_id == endpoint then some info else rest
      ]

  -- The first of the handles that has a pipe with the address, and that pipe.
  unfoldable pub probe : ℕ → W → List ℕ → Option (ℕ × PipeInformation)
  probe endpoint w [] = none
  probe endpoint w (h ∷ hs) =
      let rest = probe endpoint w hs in
      elim (find_pipe endpoint h w 0 32) [ none ↦ rest | some info ↦ some (h, info) ]

  abbrev pub first_or : ℕ → Option (ℕ × PipeInformation) → ℕ
  first_or usb none = usb
  first_or usb (some found) = found.0

  -- The slow path: all handles are probed, if there is more than one.
  abbrev pub scan : ℕ → ℕ → List (ℕ × ℕ) → W → ℕ
  scan endpoint usb [] w = usb
  scan endpoint usb (entry ∷ rest) w =
      first_or usb (probe endpoint w (usb ∷ handles (entry ∷ rest)))

  abbrev pub cached_or_scan : ℕ → Option ℕ → Attached W → ℕ
  cached_or_scan endpoint (some h) s = h
  cached_or_scan endpoint none s = scan endpoint s.device.usb_handle s.device.assoc_handles s.world

  unfoldable pub handle_for_endpoint : ℕ → Attached W → ℕ
  handle_for_endpoint endpoint s =
      cached_or_scan endpoint (lookup endpoint s.device.endpoint_cache) s

  -- `for idx in 0u8..32` of `build_endpoint_cache`
  unfoldable pub cache_pipes : ℕ → W → ℕ → ℕ → List (ℕ × ℕ) → List (ℕ × ℕ)
  cache_pipes h w idx zero cache = cache
  cache_pipes h w idx (suc left) cache = elim (api.query_pipe h idx w) [
    | failed _ ↦ cache
    | done info ↦ cache_pipes h w (idx + 1) left (insert info.pipe_id h cache)
  ]

  unfoldable pub build_endpoint_cache : ℕ → Attached W → Attached W
  build_endpoint_cache h s = record s {
    device = record s.device {
      endpoint_cache = cache_pipes h s.world 0 32 s.device.endpoint_cache;
    };
  }

  abbrev pub is_interface : ℕ → Win ℕ → Bool
  is_interface interface (done n) = n == interface
  is_interface interface (failed _) = false

  abbrev pub not_found : ℕ → Result (Unit {0})
  not_found interface =
      err (other "interface {} not found among associated interfaces" (interface ∷ []))

  -- `self.build_endpoint_cache(h); self.assoc_handles.push((interface, h))`
  unfoldable pub hold : ℕ → ℕ → Attached W → Attached W
  unfolding build_endpoint_cache
  hold interface h s =
      let cached = build_endpoint_cache h s in
      record cached {
        device = record cached.device {
          assoc_handles = cached.device.assoc_handles ++ ((interface, h) ∷ []);
        };
      }

  -- `for assoc_index in 0u8..32u8`
  unfoldable pub search_interface : ℕ → ℕ → ℕ → Op (Attached W) (Unit {0})
  search_interface interface idx zero s = (not_found interface, s)
  search_interface interface idx (suc left) s =
      let (r, w) = api.get_associated_interface s.device.usb_handle idx s.world in
      elim r [
        | failed _ ↦ (not_found interface, record s { world = w })
        | done h ↦
            if is_interface interface (api.query_interface_number h w)
            then (ok tt, hold interface h (record s { world = w }))
            else search_interface interface (idx + 1) left (record s { world = api.free h w })
      ]

  unfoldable pub claim_interface : ℕ → Op (Attached W) (Unit {0})
  claim_interface interface s =
      if interface == 0
      then (ok tt, build_endpoint_cache s.device.usb_handle s)
      else (elim (find_handle interface s.device.assoc_handles) [
        | some _ ↦ (ok tt, s)
        | none ↦ search_interface interface 0 32 s
      ])

  unfoldable pub release_interface : ℕ → Op (Attached W) (Unit {0})
  release_interface interface s =
      if interface == 0 then (ok tt, s) else (elim (find_handle interface s.device.assoc_handles) [
        | none ↦ (ok tt, s)
        | some h ↦ (
          ok tt,
          record {
            device = record s.device {
              assoc_handles = remove_handle interface s.device.assoc_handles;
              endpoint_cache = evict h s.device.endpoint_cache;
            };
            world = api.free h s.world;
          },
        )
      ])

  -- `for (_, h) in self.assoc_handles.drain(..).rev()`: the last handle is freed first.
  unfoldable pub free_reversed : List ℕ → W → W
  free_reversed [] w = w
  free_reversed (h ∷ hs) w = api.free h (free_reversed hs w)

  -- `Drop for WinUsbDevice`
  unfoldable pub drop : Attached W → W
  drop s =
      api.close_handle s.device.file_handle
        (api.free s.device.usb_handle (free_reversed (handles s.device.assoc_handles) s.world))
