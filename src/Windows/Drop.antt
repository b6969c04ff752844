-- ===== src/Windows/Drop.antt =====
-- Dropping a device, after any claims and releases.
use rust_usb.Base.{ℕ, ◌≡◌, List, [], ◌∷◌, arith, not, true, false, ◌&&◌, contains, IsDistinct}
use rust_usb.Windows.{WinUsb, Attached}
use rust_usb.Windows.Device.{handles, claim_interface, release_interface, free_reversed, drop}
use rust_usb.Windows.Ledger.{Ledger, Held}
use rust_usb.Windows.Lifetime.{claim_interface-Held, release_interface-Held}

pub data Step : Type 0 where
  claim release : ℕ → Step

module _ {W : Type 0} (api : WinUsb W) where
  -- What a client does with an opened device, in order, whatever the calls return.
  unfoldable pub steps : List Step → Attached W → Attached W
  steps [] s = s
  steps (claim i ∷ rest) s = steps rest (claim_interface api i s).1
  steps (release i ∷ rest) s = steps rest (release_interface api i s).1

  module _ (ledger : Ledger api) where
    open ledger use {live, Sound, free_live, free_sound, close_live, close_sound}

    pub steps-Held :
        (l : List Step) (s : Attached W) → Held api ledger s → Held api ledger (steps l s)
    unfolding steps
    steps-Held [] s x = x
    steps-Held (claim i ∷ l) s x = steps-Held l _ (claim_interface-Held api ledger i s x).0
    steps-Held (release i ∷ l) s x = steps-Held l _ (release_interface-Held api ledger i s x).1

    free_reversed-live :
        (hs : List ℕ) (w : W) (j : ℕ)
        → live (free_reversed api hs w) j ≡ (live w j && not (contains j hs))
    unfolding free_reversed
    free_reversed-live [] w j = ground arith
    free_reversed-live (h ∷ hs) w j =
        ground (arith, free_live h j (free_reversed api hs w), free_reversed-live hs w j)

    free_reversed-sound :
        (hs : List ℕ) (w : W)
        → IsDistinct hs
        → ((j : ℕ) → contains j hs ≡ true → live w j ≡ true)
        → Sound w
        → Sound (free_reversed api hs w)
    unfolding free_reversed
    free_reversed-sound [] w d alive sound = sound
    free_reversed-sound (h ∷ hs) w (new, d) alive sound =
        free_sound h (free_reversed api hs w)
          (ground (arith, free_reversed-live hs w h, alive h (ground arith)))
          (free_reversed-sound hs w d (λ j c. alive j (ground (arith, c))) sound)

    -- Whatever interfaces a client claims and releases on a device in order, in any sequence: the drop
    -- at the end leaves no handle live, and none is freed twice.
    pub drop-steps :
        (l : List Step) (s : Attached W) (j : ℕ)
        → Held api ledger s
        → (live (drop api (steps l s)) j ≡ false) × Sound (drop api (steps l s))
    unfolding drop
    drop-steps l s j x =
        let end = steps l s in
        let y = steps-Held l s x in
        let hs = handles end.device.assoc_handles in
        let u = end.device.usb_handle in
        let freed = free_reversed api hs end.world in
        let gone = api.free u freed in
        let sound =
          free_reversed-sound hs end.world y.distinct.1 (λ j c. ground (arith, y.exact j, c))
            y.sound in
        (
          ground (
            arith,
            close_live end.device.file_handle j gone,
            free_live u j freed,
            free_reversed-live hs end.world j,
            y.exact j,
          ),
          close_sound end.device.file_handle gone (
              free_sound u freed
                (ground (arith, free_reversed-live hs end.world u, y.exact u, y.distinct.0)) sound),
        )
