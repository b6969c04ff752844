-- ===== src/Windows/Lifetime.antt =====
-- The life of an opened device: claims and releases in any order, and the drop at its end.
use rust_usb.Base.{
  ℕ, ◌≡◌, ◌⊎◌, inl, inr, refl, ◌∙◌, List, [], ◌∷◌, none, some, arith, ◌==◌, not, if◌then◌else◌,
  true, false, ◌&&◌, All, contains, nat_eq, Option-cases, Bool-cases, lookup,
}
use rust_usb.Error.{ok}
use rust_usb.Windows.{WinUsb, WinUsbDevice, Attached}
use rust_usb.Windows.Device.{
  find_handle, remove_handle, handles, evict, interface_handle, find_pipe, probe,
  handle_for_endpoint, scan, first_or, build_endpoint_cache, not_found, search_interface,
  claim_interface, release_interface,
}
use rust_usb.Windows.Entries.{
  held, find_handle-none, find_handle-contains, handles-remove_handle, remove_handle-IsDistinct,
  numbers-remove_handle, remove_handle-numbers,
}
use rust_usb.Windows.Ledger.{
  Ledger, Held, Within, search_interface-Held, cache_pipes-Within, evict-Within,
}

module _ {W : Type 0} (api : WinUsb W) (ledger : Ledger api) where
  open ledger use {live, Sound, free_live, free_sound, close_live, close_sound}

  -- The branches of the operations.
  claim-zero :
      (i : ℕ) (s : Attached W)
      → (i == 0) ≡ true
      → claim_interface api i s ≡ (ok tt, build_endpoint_cache api s.device.usb_handle s)
  unfolding claim_interface
  claim-zero i s z = rw z refl

  claim-again :
      (i h : ℕ) (s : Attached W)
      → (i == 0) ≡ false
      → find_handle i s.device.assoc_handles ≡ some h
      → claim_interface api i s ≡ (ok tt, s)
  unfolding claim_interface
  claim-again i h s z e = rw (claim_interface, z, e) refl

  claim-new :
      (i : ℕ) (s : Attached W)
      → (i == 0) ≡ false
      → find_handle i s.device.assoc_handles ≡ none
      → claim_interface api i s ≡ search_interface api i 0 32 s
  unfolding claim_interface
  claim-new i s z e = rw (claim_interface, z, e) refl

  interface_handle-found :
      (i h : ℕ) (d : WinUsbDevice)
      → find_handle i d.assoc_handles ≡ some h
      → (g : ℕ) × (interface_handle api i d ≡ ok g)
  unfolding interface_handle
  interface_handle-found i h d e = elim (Bool-cases (i == 0)) [
    | inl z ↦ (d.usb_handle, rw z refl)
    | inr z ↦ (h, rw (z, e) refl)
  ]

  cached-Held :
      (s : Attached W)
      → Held api ledger s
      → Held api ledger (build_endpoint_cache api s.device.usb_handle s)
  unfolding build_endpoint_cache
  cached-Held s x = record {
    exact = x.exact;
    distinct = x.distinct;
    one_each = x.one_each;
    cached =
        cache_pipes-Within api ledger (held s.device) s.device.usb_handle s.world 0 32
          s.device.endpoint_cache (ground arith) x.cached;
    sound = x.sound;
  }

  -- Claiming an interface keeps a device in order: it holds exactly the live handles, each once, its
  -- cache has no others, and none was freed twice. If it succeeds, `interface_handle` has a handle for
  -- the interface afterwards; if it fails, the device is what it was.
  pub claim_interface-Held :
      (i : ℕ) (s : Attached W)
      → Held api ledger s
      → let (r, s') = claim_interface api i s in
        Held api ledger s'
        × (((r ≡ ok tt) × (h : ℕ) × (interface_handle api i s'.device ≡ ok h))
            ⊎ ((r ≡ not_found api i) × (s'.device ≡ s.device)))
  unfolding build_endpoint_cache interface_handle
  claim_interface-Held i s x = elim (Bool-cases (i == 0)) [
    | inl z ↦ rw (claim-zero i s z, z) (cached-Held s x, inl (refl, s.device.usb_handle, refl))
    | inr z ↦ elim (Option-cases (find_handle i s.device.assoc_handles)) [
      | inr (h, e) ↦
          let (g, e') = interface_handle-found i h s.device e in
          rw (claim-again i h s z e) (x, inl (refl, g, e'))
      | inl e ↦
          let (good, _, outcome) = search_interface-Held api ledger i 0 32 s x e in
          rw (claim-new i s z e) (
            good,
            elim outcome [
              | inl (r, h, found) ↦
                  let (g, e') =
                    interface_handle-found i h (search_interface api i 0 32 s).1.device found in
                  inl (r, g, e')
              | inr unchanged ↦ inr unchanged
            ],
          )
    ]
  ]

  release-zero : (i : ℕ) (s : Attached W) → (i == 0) ≡ true → release_interface api i s ≡ (ok tt, s)
  unfolding release_interface
  release-zero i s z = rw z refl

  release-unclaimed :
      (i : ℕ) (s : Attached W)
      → (i == 0) ≡ false
      → find_handle i s.device.assoc_handles ≡ none
      → release_interface api i s ≡ (ok tt, s)
  unfolding release_interface
  release-unclaimed i s z e = rw (release_interface, z, e) refl

  abbrev released : ℕ → ℕ → Attached W → Attached W
  released i h s = record {
    device = record s.device {
      assoc_handles = remove_handle i s.device.assoc_handles;
      endpoint_cache = evict h s.device.endpoint_cache;
    };
    world = api.free h s.world;
  }

  release-claimed :
      (i h : ℕ) (s : Attached W)
      → (i == 0) ≡ false
      → find_handle i s.device.assoc_handles ≡ some h
      → release_interface api i s ≡ (ok tt, released i h s)
  unfolding release_interface
  release-claimed i h s z e = rw (release_interface, z, e) refl

  released-Held :
      (i h : ℕ) (s : Attached W)
      → Held api ledger s
      → find_handle i s.device.assoc_handles ≡ some h
      → Held api ledger (released i h s)
  released-Held i h s x e =
      let xs = s.device.assoc_handles in
      let u = s.device.usb_handle in
      let (new, d) = x.distinct in
      let inside = find_handle-contains i h xs e in
      let shrink : (j : ℕ)
          → contains j (handles (remove_handle i xs)) ≡ (contains j (handles xs) && not (h == j)) =
        λ j. handles-remove_handle i h j xs d e in
      let all : (j : ℕ)
          → contains j (u ∷ handles (remove_handle i xs))
            ≡ (contains j (u ∷ handles xs) && not (h == j)) =
        λ j. ground (arith, shrink j) in
      record {
        exact = λ j. ground (arith, free_live h j s.world, x.exact j, all j);
        distinct = (ground (arith, shrink u), remove_handle-IsDistinct i h xs d e);
        one_each = remove_handle-numbers i xs x.one_each;
        cached =
            evict-Within h (held s.device) (u ∷ handles (remove_handle i xs))
              s.device.endpoint_cache all x.cached;
        sound = free_sound h s.world (ground (arith, x.exact h)) x.sound;
      }

  -- Releasing an interface always succeeds and keeps a device in order; interface 0 stays with the
  -- device, and any other has no handle afterwards.
  pub release_interface-Held :
      (i : ℕ) (s : Attached W)
      → Held api ledger s
      → let (r, s') = release_interface api i s in
        (r ≡ ok tt)
        × Held api ledger s'
        × (find_handle i s'.device.assoc_handles
            ≡ (if i == 0 then find_handle 0 s.device.assoc_handles else none))
  release_interface-Held i s x = elim (Bool-cases (i == 0)) [
    | inl z ↦ rw (release-zero i s z) (refl, x, ground arith)
    | inr z ↦ elim (Option-cases (find_handle i s.device.assoc_handles)) [
      | inl e ↦ rw (release-unclaimed i s z e, z) (refl, x, e)
      | inr (h, e) ↦
          rw (release-claimed i h s z e, z)
            (
              refl,
              released-Held i h s x e,
              find_handle-none i (remove_handle i s.device.assoc_handles)
                  (ground (arith, numbers-remove_handle i i s.device.assoc_handles x.one_each)),
            )
    ]
  ]

  lookup-Within :
      (hs : List ℕ) (e h : ℕ) (m : List (ℕ × ℕ))
      → All (Within hs) m
      → lookup e m ≡ some h
      → contains h hs ≡ true
  lookup-Within hs e h [] all found = cc
  lookup-Within hs e h ((f, g) ∷ m) (first, all) found = ground (arith, lookup-Within hs e h m all)

  first_or-probe :
      (e u : ℕ) (w : W) (hs all : List ℕ)
      → contains u all ≡ true
      → ((j : ℕ) → contains j hs ≡ true → contains j all ≡ true)
      → contains (first_or api u (probe api e w hs)) all ≡ true
  unfolding probe
  first_or-probe e u w [] all c sub = c
  first_or-probe e u w (h ∷ hs) all c sub = elim (Option-cases (find_pipe api e h w 0 32)) [
    | inl none_here ↦
        rw (probe, none_here) (first_or-probe e u w hs all c (λ j k. sub j (ground (arith, k))))
    | inr (info, here) ↦ rw (probe, here) (sub h (ground arith))
  ]

  scan-contains :
      (e u : ℕ) (xs : List (ℕ × ℕ)) (w : W) → contains (scan api e u xs w) (u ∷ handles xs) ≡ true
  scan-contains e u [] w = ground arith
  scan-contains e u (x ∷ xs) w =
      first_or-probe e u w (u ∷ handles (x ∷ xs)) (u ∷ handles (x ∷ xs)) (ground arith) (λ j h. h)

  -- On a device that holds exactly the live handles, and has no others in its cache, the handle for any
  -- endpoint is a live one.
  pub handle_for_endpoint-live :
      (e : ℕ) (s : Attached W)
      → Held api ledger s
      → live s.world (handle_for_endpoint api e s) ≡ true
  unfolding handle_for_endpoint
  handle_for_endpoint-live e s x = elim (Option-cases (lookup e s.device.endpoint_cache)) [
    | inl miss ↦ rw miss (
        x.exact (scan api e s.device.usb_handle s.device.assoc_handles s.world)
        ∙ scan-contains e s.device.usb_handle s.device.assoc_handles s.world)
    | inr (h, hit) ↦
        rw hit (x.exact h ∙ lookup-Within (held s.device) e h s.device.endpoint_cache x.cached hit)
  ]
