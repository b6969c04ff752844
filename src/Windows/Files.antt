-- ===== src/Windows/Files.antt =====
-- The open files of the Windows backend: claims and releases leave them, and the drop closes one.
use rust_usb.Base.{
  ℕ, zero, suc, ◌+◌, ◌-◌, ◌≡◌, refl, ◌∙◌, inl, inr, List, [], ◌∷◌, ◌==◌, ◌||◌, if◌then◌else◌, Bool,
  Bool-cases, Option-cases, arith,
}
use rust_usb.Text.{Text}
use rust_usb.Windows.{Win-cases, done, failed, WinUsb, Attached}
use rust_usb.Windows.Device.{
  find_handle, search_interface, claim_interface, release_interface, free_reversed, hold,
  build_endpoint_cache, handles, drop,
}
use rust_usb.Windows.Ledger.{Ledger}
use rust_usb.Windows.Drop.{Step, claim, release, steps}
use rust_usb.Windows.Open.{invalid_handle_value}

-- What Windows documents of opening: `files` counts the open files, `CreateFileW` opens one when it
-- gives a handle that is valid, and `WinUsb_Initialize` makes a handle live.
pub record Files {W : Type 0} (api : WinUsb W) (ledger : Ledger api) : Type 0 where
  pub files : W → ℕ
  pub file_opened :
      (writable : Bool) (path : Text) (h : ℕ) (w : W)
      → (api.create_file writable path w).0 ≡ done h
      → files (api.create_file writable path w).1
        ≡ (if h == invalid_handle_value then files w else suc (files w))
  pub file_refused :
      (writable : Bool) (path : Text) (code : ℕ) (w : W)
      → (api.create_file writable path w).0 ≡ failed code
      → files (api.create_file writable path w).1 ≡ files w
  pub file_live :
      (writable : Bool) (path : Text) (j : ℕ) (w : W)
      → ledger.live (api.create_file writable path w).1 j ≡ ledger.live w j
  pub file_sound :
      (writable : Bool) (path : Text) (w : W)
      → ledger.Sound w
      → ledger.Sound (api.create_file writable path w).1
  pub made_live :
      (file u j : ℕ) (w : W)
      → (api.initialize file w).0 ≡ done u
      → ledger.live (api.initialize file w).1 j ≡ (ledger.live w j || u == j)
  pub unmade_live :
      (file code j : ℕ) (w : W)
      → (api.initialize file w).0 ≡ failed code
      → ledger.live (api.initialize file w).1 j ≡ ledger.live w j
  pub made_sound : (file : ℕ) (w : W) → ledger.Sound w → ledger.Sound (api.initialize file w).1
  pub made_files : (file : ℕ) (w : W) → files (api.initialize file w).1 ≡ files w
  pub closed : (h : ℕ) (w : W) → files (api.close_handle h w) ≡ files w - 1
  pub freed : (h : ℕ) (w : W) → files (api.free h w) ≡ files w
  pub associated : (u i : ℕ) (w : W) → files (api.get_associated_interface u i w).1 ≡ files w

module _ {W : Type 0} (api : WinUsb W) (ledger : Ledger api) (account : Files api ledger) where
  open ledger use {live, Sound, close_live, close_sound}
  open account use {
    files, file_opened, file_refused, file_live, file_sound, made_live, unmade_live, made_sound,
    made_files, closed, freed, associated,
  }

  search_interface-files :
      (interface idx left : ℕ) (s : Attached W)
      → files (search_interface api interface idx left s).1.world ≡ files s.world
  unfolding search_interface hold build_endpoint_cache
  search_interface-files interface idx zero s = refl
  search_interface-files interface idx (suc left) s =
      let call = api.get_associated_interface s.device.usb_handle idx s.world in
      elim (Win-cases call.0) [
        | inl (code, e) ↦ rw (search_interface, e) (associated s.device.usb_handle idx s.world)
        | inr (h, e) ↦
            let next : Attached W = record s { world = api.free h call.1 } in
            rw (search_interface, e)
              (ground (
                arith,
                associated s.device.usb_handle idx s.world,
                freed h call.1,
                search_interface-files interface (idx + 1) left next,
              ))
      ]

  claim_interface-files :
      (i : ℕ) (s : Attached W) → files (claim_interface api i s).1.world ≡ files s.world
  unfolding claim_interface build_endpoint_cache
  claim_interface-files i s = elim (Bool-cases (i == 0)) [
    | inl base ↦ rw (claim_interface, base) refl
    | inr upper ↦ elim (Option-cases (find_handle i s.device.assoc_handles)) [
      | inl nothing ↦ rw (claim_interface, upper, nothing) (search_interface-files i 0 32 s)
      | inr (h, there) ↦ rw (claim_interface, upper, there) refl
    ]
  ]

  release_interface-files :
      (i : ℕ) (s : Attached W) → files (release_interface api i s).1.world ≡ files s.world
  unfolding release_interface
  release_interface-files i s = elim (Bool-cases (i == 0)) [
    | inl base ↦ rw (release_interface, base) refl
    | inr upper ↦ elim (Option-cases (find_handle i s.device.assoc_handles)) [
      | inl nothing ↦ rw (release_interface, upper, nothing) refl
      | inr (h, there) ↦ rw (release_interface, upper, there) (freed h s.world)
    ]
  ]

  pub steps-files : (l : List Step) (s : Attached W) → files (steps api l s).world ≡ files s.world
  unfolding steps
  steps-files [] s = refl
  steps-files (claim i ∷ l) s =
      steps-files l (claim_interface api i s).1 ∙ claim_interface-files i s
  steps-files (release i ∷ l) s =
      steps-files l (release_interface api i s).1 ∙ release_interface-files i s

  free_reversed-files : (hs : List ℕ) (w : W) → files (free_reversed api hs w) ≡ files w
  unfolding free_reversed
  free_reversed-files [] w = refl
  free_reversed-files (h ∷ hs) w = freed h (free_reversed api hs w) ∙ free_reversed-files hs w

  pub drop-files : (s : Attached W) → files (drop api s) ≡ files s.world - 1
  unfolding drop
  drop-files s =
      let hs = handles s.device.assoc_handles in
      let w = free_reversed api hs s.world in
      omega (
        arith,
        closed s.device.file_handle (api.free s.device.usb_handle w),
        freed s.device.usb_handle w,
        free_reversed-files hs s.world,
      )
