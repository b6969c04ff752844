-- ===== src/Linux/Strings.antt =====
-- Reading a string descriptor over a kernel that serves it.
use rust_usb.Base.{
  ℕ, ◌+◌, ◌*◌, ◌/◌, ◌%◌, ◌≤◌, ◌<◌, ◌≡◌, refl, ap, ◌∙◌, List, [], ◌∷◌, ◌++◌, arith, length, take,
  drop, replicate, min, bit_or, bit_or-byte, take_all, All,
}
use rust_usb.Error.{ok}
use rust_usb.Bytes.{index, slice, slice-append}
use rust_usb.Text.{Text, from_utf16_lossy, encode_utf16, from_utf16_lossy-encode_utf16, IsScalar}
use rust_usb.Linux.{Kernel, Attached}
use rust_usb.Linux.Device.{raw_control, read_string_descriptor}
use rust_usb.Bytes.{le_units}
use rust_usb.Linux.Read.{Serves, raw_control-Serves}

abbrev pub le_bytes : List ℕ → List ℕ
le_bytes [] = []
le_bytes (u ∷ units) = (u % 256) ∷ (u / 256) ∷ le_bytes units

-- A string descriptor: its length, its type, and the UTF-16LE text.
abbrev pub encode : Text → List ℕ
encode t = (2 + length (le_bytes (encode_utf16 t))) ∷ 3 ∷ le_bytes (encode_utf16 t)

le_units-le_bytes : (units : List ℕ) → le_units (le_bytes units) ≡ units
le_units-le_bytes [] = refl
le_units-le_bytes (u ∷ units) =
    let e : u % 256 + 256 * (u / 256) ≡ u = omega arith in rw (e, le_units-le_bytes units) refl

module _ {W : Type 0} (k : Kernel W) where
  -- On a device that is there and serves the string descriptor of a text, of at most 255 bytes,
  -- under an index and a language, `read_string_descriptor` returns that very text, and the device is
  -- still there.
  pub read_string_descriptor-Serves :
      (P : W → Type 0) (t : Text) (i lang : ℕ) (s : Attached W)
      → Serves k P s.device.fd (0x0300 + i) lang (encode t)
      → P s.world
      → All IsScalar t
      → length (encode t) ≤ 255
      → i < 256
      → let (r, s') = read_string_descriptor k i lang s in
        (r ≡ ok t) × P s'.world × (s'.device ≡ s.device)
  unfolding read_string_descriptor
  read_string_descriptor-Serves P t i lang s serves p scalar small hi =
      let value : bit_or 0x0300 i ≡ 0x0300 + i = bit_or-byte 3 i hi in
      let units = le_bytes (encode_utf16 t) in
      let zeros : List ℕ = replicate 255 0 in
      let rest : List ℕ = drop (length (encode t)) zeros in
      let (r, after, q, same) =
        raw_control-Serves k P (0x0300 + i) lang 255 (encode t) s serves p (omega arith) in
      let whole : take 255 (encode t) ≡ encode t = take_all 255 (encode t) small in
      let size : min 255 (length (encode t)) ≡ 2 + length units = omega arith in
      let read : (raw_control k 0x80 0x06 (0x0300 + i) lang zeros 5000 s).1 ≡ encode t ++ rest =
        after ∙ ap (λ x. x ++ rest) whole in
      let count = r ∙ ap ok size in
      let content : slice (encode t ++ rest) 2 (2 + length units) ≡ ok units =
        slice-append ((2 + length units) ∷ 3 ∷ []) units rest in
      let first : index (encode t ++ rest) 0 ≡ ok (2 + length units) = unfold index in refl in
      let text : from_utf16_lossy (le_units units) ≡ t =
        ap from_utf16_lossy (le_units-le_bytes (encode_utf16 t))
        ∙ from_utf16_lossy-encode_utf16 t scalar in
      rw (value, count, read, first) (ground (arith, content, text), q, same)
