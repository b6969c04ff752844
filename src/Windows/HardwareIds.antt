-- ===== src/Windows/HardwareIds.antt =====
-- The ids of a device, from the list of hardware ids that the registry has of it.
use rust_usb.Base.{
  ℕ, ◌<◌, ◌≡◌, ◌≢◌, refl, ap, ◌∙◌, List, [], ◌∷◌, ◌++◌, none, some, All, replicate, sym,
}
use rust_usb.Bytes.{le_units}
use rust_usb.Text.{Text, from_utf16_lossy}
use rust_usb.Text.Search.{split, Without, split-part}
use rust_usb.Windows.{done}
use rust_usb.Windows.HardwareId.{parse_vid_pid, hardware_id, parse_vid_pid-hardware_id}
use rust_usb.Windows.SetupApi.{SetupApi, hardwareid, ids_of, first_ids, read_vid_pid}

-- The strings of a REG_MULTI_SZ, each with a zero behind it, and then `rest`.
abbrev pub multi_sz : List (List ℕ) → List ℕ → List ℕ
multi_sz [] rest = rest
multi_sz (units ∷ strings) rest = units ++ (0 ∷ multi_sz strings rest)

module _ {W : Type 0} (setup : SetupApi W) (to_uppercase : Text → Text) where
  -- A string that is not empty, has no zero, and has no ids in it.
  abbrev pub Other : List ℕ → Type 0
  Other units = (units ≢ []) × Without 0 units × (ids_of setup to_uppercase units ≡ none)

  first_ids-some :
      (piece : List ℕ) (more : List (List ℕ)) (ids : ℕ × ℕ)
      → ids_of setup to_uppercase piece ≡ some ids
      → first_ids setup to_uppercase (piece ∷ more) ≡ ids
  unfolding first_ids
  first_ids-some piece [] ids e = rw e refl
  first_ids-some piece ([] ∷ more) ids e = rw e refl
  first_ids-some piece ((u ∷ units) ∷ more) ids e = rw e refl

  first_ids-none :
      (piece next : List ℕ) (more : List (List ℕ))
      → ids_of setup to_uppercase piece ≡ none
      → next ≢ []
      → first_ids setup to_uppercase (piece ∷ next ∷ more)
        ≡ first_ids setup to_uppercase (next ∷ more)
  unfolding first_ids
  first_ids-none piece [] more e ne = absurd (ne refl)
  first_ids-none piece (u ∷ units) more e ne = rw e refl

  -- What stands in front of the first string with ids is passed over.
  first_ids-multi_sz :
      (others : List (List ℕ)) (id rest : List ℕ) (ids : ℕ × ℕ)
      → All Other others
      → id ≢ []
      → Without 0 id
      → ids_of setup to_uppercase id ≡ some ids
      → first_ids setup to_uppercase (split 0 (multi_sz others (id ++ (0 ∷ rest)))) ≡ ids
  first_ids-multi_sz [] id rest ids all ne whole e =
      rw (split-part 0 id rest whole) (first_ids-some id (split 0 rest) ids e)
  first_ids-multi_sz (piece ∷ []) id rest ids ((_, clean, bad), all) ne whole e =
      rw (split-part 0 piece (id ++ (0 ∷ rest)) clean, split-part 0 id rest whole)
        (first_ids-none piece id (split 0 rest) bad ne ∙ first_ids-some id (split 0 rest) ids e)
  first_ids-multi_sz (piece ∷ next ∷ others) id rest ids ((_, clean, bad), (head, all)) ne whole e =
      let behind = multi_sz others (id ++ (0 ∷ rest)) in
      let (solid, clean', _) = head in
      let later = first_ids-multi_sz (next ∷ others) id rest ids (head, all) ne whole e in
      rw (split-part 0 piece (next ++ (0 ∷ behind)) clean) (
        ap (λ pieces. first_ids setup to_uppercase (piece ∷ pieces))
          (split-part 0 next behind clean')
        ∙ (first_ids-none piece next (split 0 behind) bad solid
            ∙ (ap (first_ids setup to_uppercase) (sym (split-part 0 next behind clean')) ∙ later)))

  -- Where the registry gives a list of hardware ids, each with a zero behind it, and some of them, not
  -- empty, have no ids in them, but the next is in uppercase the hardware id of a vendor and a product,
  -- with any text behind it, `read_vid_pid` returns that vendor and that product, whatever follows in
  -- the buffer.
  pub read_vid_pid-hardware_id :
      (dev_info device vid pid : ℕ) (others : List (List ℕ)) (id rest buf : List ℕ) (behind : Text)
      (w : W)
      → setup.registry_property dev_info device hardwareid (replicate 512 0) w ≡ (done tt, buf)
      → le_units buf ≡ multi_sz others (id ++ (0 ∷ rest))
      → All Other others
      → id ≢ []
      → Without 0 id
      → to_uppercase (from_utf16_lossy id) ≡ hardware_id vid pid behind
      → vid < 65536
      → pid < 65536
      → read_vid_pid setup to_uppercase dev_info device w ≡ (vid, pid)
  unfolding read_vid_pid ids_of
  read_vid_pid-hardware_id dev_info device vid pid others id rest buf behind w call text all ne
        whole upper v p =
      let ids : ids_of setup to_uppercase id ≡ some (vid, pid) =
        ap parse_vid_pid upper ∙ parse_vid_pid-hardware_id vid pid behind v p in
      let granted = ap (λ x. x.0) call in
      let filled = ap (λ x. x.1) call in
      rw (read_vid_pid, granted, filled, text)
        (first_ids-multi_sz others id rest (vid, pid) all ne whole ids)
