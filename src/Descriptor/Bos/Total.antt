-- ===== src/Descriptor/Bos/Total.antt =====
-- `BosDescriptor::from_bytes` on any buffer.
use rust_usb.Base.{
  ℕ, suc, ◌+◌, ◌*◌, ◌≤◌, ◌<◌, ◌≡◌, ◌≢◌, ◌⊎◌, refl, List, [], arith, length, get_or, inl, inr, ap,
  length-append, length-take, length-drop, take, drop, min, ◌++◌, take-drop_split, Bool-cases, ltb,
  leb, ◌==◌, ◌||◌, not,
}
use rust_usb.Error.{ok, err, invalid_descriptor}
use rust_usb.Bytes.{index-lt}
use rust_usb.Descriptor.Chunks.{Chunked, stop, more, chunked}
use rust_usb.Descriptor.Bos.{BosCapability, BosDescriptor, walk, from_bytes}
use rust_usb.Descriptor.Bos.Refine.{decode_all, walk-decode_all}

-- `wTotalLength`, and the bytes behind the header that it covers.
abbrev pub total_length_of : List ℕ → ℕ
total_length_of buf = get_or buf 2 0 + 256 * get_or buf 3 0

abbrev pub nested_area : List ℕ → List ℕ
nested_area buf = drop 5 (take (total_length_of buf) buf)

abbrev pub with_capabilities : List ℕ → List BosCapability → BosDescriptor
with_capabilities buf caps = record {
  total_length = total_length_of buf;
  num_device_caps = get_or buf 4 0;
  capabilities = caps;
}

nothing-Chunked :
    {area : List ℕ} {cs : List (List ℕ)}
    → Chunked 3 area cs
    → length area ≡ 0
    → (caps : List BosCapability) → decode_all caps cs ≡ caps
unfolding decode_all
nothing-Chunked (stop s) h caps = refl
nothing-Chunked (more chunk rest e size len ch) h caps =
    absurd (omega (arith, ap length e, length-append chunk rest))

walk_short :
    (fuel : ℕ) (buf : List ℕ) (end : ℕ) (caps : List BosCapability)
    → end < 8
    → walk (suc fuel) buf end 5 caps ≡ ok caps
unfolding walk
walk_short fuel buf end caps h = ground arith

-- The loop as the parser calls it.
walk_whole :
    (buf : List ℕ) (total : ℕ) {cs : List (List ℕ)}
    → 5 ≤ length buf
    → Chunked 3 (drop 5 (take total buf)) cs
    → walk (suc (length buf)) buf (min total (length buf)) 5 [] ≡ ok (decode_all [] cs)
walk_whole buf total h ch = elim (Bool-cases (leb 5 total)) [
  | inl long ↦
      let area = drop 5 (take total buf) in
      let front : length (take 5 buf) ≡ 5 = omega (arith, length-take 5 buf) in
      let end : 5 + length area ≡ min total (length buf) =
        ground (arith, length-drop 5 (take total buf), length-take total buf) in
      let whole : take 5 buf ++ (area ++ drop total buf) ≡ buf =
        take-drop_split 5 total buf (ground arith) in
      rw (whole, front, end) at
        (walk-decode_all ch (suc (length buf)) (take 5 buf) (drop total buf) []
          (omega (arith, length-drop 5 (take total buf), length-take total buf)))
  | inr short ↦
      rw
        (nothing-Chunked ch (ground (arith, length-drop 5 (take total buf), length-take total buf))
          [])
        (walk_short (length buf) buf (min total (length buf)) [] (ground arith))
]

pub from_bytes-decode_all :
    (buf : List ℕ) {cs : List (List ℕ)}
    → 5 ≤ length buf
    → get_or buf 1 0 ≡ 0x0F
    → Chunked 3 (nested_area buf) cs
    → from_bytes buf ≡ ok (with_capabilities buf (decode_all [] cs))
unfolding from_bytes
from_bytes-decode_all buf h tag ch = ground (
  arith,
  walk_whole buf (total_length_of buf) h ch,
  index-lt buf 1,
  index-lt buf 2,
  index-lt buf 3,
  index-lt buf 4,
)

from_bytes_rejects :
    (buf : List ℕ)
    → (length buf < 5) ⊎ (get_or buf 1 0 ≢ 0x0F)
    → from_bytes buf ≡ err invalid_descriptor
unfolding from_bytes
from_bytes_rejects buf h = ground (arith, index-lt buf 1)

-- On any buffer the parser returns, with no panic and no endless loop. With at least 5 bytes and the
-- tag 0x0F the result is the header's fields, and the capabilities decoded from the records into
-- which the bytes between the header and `wTotalLength` fall; any other buffer is
-- `invalid_descriptor`.
pub bos_from_bytes_total :
    (buf : List ℕ)
    → ((5 ≤ length buf)
        × (get_or buf 1 0 ≡ 0x0F)
        × (cs : List (List ℕ)) × Chunked 3 (nested_area buf) cs
        × (from_bytes buf ≡ ok (with_capabilities buf (decode_all [] cs))))
      ⊎ (((length buf < 5) ⊎ (get_or buf 1 0 ≢ 0x0F)) × (from_bytes buf ≡ err invalid_descriptor))
bos_from_bytes_total buf = elim (Bool-cases (ltb (length buf) 5 || not (get_or buf 1 0 == 0x0F))) [
  | inl e ↦
      let bad : (length buf < 5) ⊎ (get_or buf 1 0 ≢ 0x0F) = ground arith in
      inr (bad, from_bytes_rejects buf bad)
  | inr e ↦
      let (cs, ch) = chunked 3 (nested_area buf) (omega arith) in
      inl (
        ground arith,
        ground arith,
        cs,
        ch,
        from_bytes-decode_all buf (ground arith) (ground arith) ch,
      )
]
