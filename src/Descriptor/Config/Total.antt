-- ===== src/Descriptor/Config/Total.antt =====
-- `ConfigDescriptor::from_bytes` on any buffer.
use rust_usb.Base.{
  take-drop_split, ℕ, suc, ◌+◌, ◌*◌, ◌≤◌, ◌<◌, ◌≡◌, ◌≢◌, ◌⊎◌, refl, List, [], ◌++◌, arith, length,
  get_or, inl, inr, ap, length-append, length-take, length-drop, take, drop, min, Bool-cases, ltb,
  leb, ◌==◌, ◌||◌, not,
}
use rust_usb.Error.{ok, err, invalid_descriptor}
use rust_usb.Bytes.{index-lt}
use rust_usb.Descriptor.Chunks.{Chunked, stop, more, chunked}
use rust_usb.Descriptor.Interface.{InterfaceDescriptor}
use rust_usb.Descriptor.Config.{ConfigDescriptor, walk, from_bytes}
use rust_usb.Descriptor.Config.Refine.{assemble, walk-assemble}

-- `wTotalLength`, and the bytes behind the header that it covers.
abbrev pub total_length_of : List ℕ → ℕ
total_length_of buf = get_or buf 2 0 + 256 * get_or buf 3 0

abbrev pub nested_area : List ℕ → List ℕ
nested_area buf = drop 9 (take (total_length_of buf) buf)

-- The header's fields with the given interfaces.
abbrev pub with_interfaces : List ℕ → List InterfaceDescriptor → ConfigDescriptor
with_interfaces buf ifaces = record {
  total_length = total_length_of buf;
  num_interfaces = get_or buf 4 0;
  configuration_value = get_or buf 5 0;
  configuration_index = get_or buf 6 0;
  attributes = get_or buf 7 0;
  max_power = get_or buf 8 0;
  interfaces = ifaces;
}

-- No record starts in an area of length 0.
nothing-Chunked :
    {area : List ℕ} {cs : List (List ℕ)}
    → Chunked 2 area cs
    → length area ≡ 0
    → (ifaces : List InterfaceDescriptor) → assemble ifaces cs ≡ ifaces
unfolding assemble
nothing-Chunked (stop s) h ifaces = refl
nothing-Chunked (more chunk rest e size len ch) h ifaces =
    absurd (omega (arith, ap length e, length-append chunk rest))

walk_short :
    (fuel : ℕ) (buf : List ℕ) (end : ℕ) (ifaces : List InterfaceDescriptor)
    → end < 11
    → walk (suc fuel) buf end 9 ifaces ≡ ok ifaces
unfolding walk
walk_short fuel buf end ifaces h = ground arith

-- The loop as the parser calls it.
walk_whole :
    (buf : List ℕ) (total : ℕ) {cs : List (List ℕ)}
    → 9 ≤ length buf
    → Chunked 2 (drop 9 (take total buf)) cs
    → walk (suc (length buf)) buf (min total (length buf)) 9 [] ≡ ok (assemble [] cs)
walk_whole buf total h ch = elim (Bool-cases (leb 9 total)) [
  | inl long ↦
      let area = drop 9 (take total buf) in
      let front : length (take 9 buf) ≡ 9 = omega (arith, length-take 9 buf) in
      let end : 9 + length area ≡ min total (length buf) =
        ground (arith, length-drop 9 (take total buf), length-take total buf) in
      let whole : take 9 buf ++ (area ++ drop total buf) ≡ buf =
        take-drop_split 9 total buf (ground arith) in
      rw (whole, front, end) at
        (walk-assemble ch (suc (length buf)) (take 9 buf) (drop total buf) []
          (omega (arith, length-drop 9 (take total buf), length-take total buf)))
  | inr short ↦
      rw
        (nothing-Chunked ch (ground (arith, length-drop 9 (take total buf), length-take total buf))
          [])
        (walk_short (length buf) buf (min total (length buf)) [] (ground arith))
]

pub from_bytes-assemble :
    (buf : List ℕ) {cs : List (List ℕ)}
    → 9 ≤ length buf
    → get_or buf 1 0 ≡ 0x02
    → Chunked 2 (nested_area buf) cs
    → from_bytes buf ≡ ok (with_interfaces buf (assemble [] cs))
unfolding from_bytes
from_bytes-assemble buf h tag ch = ground (
  arith,
  walk_whole buf (total_length_of buf) h ch,
  index-lt buf 1,
  index-lt buf 2,
  index-lt buf 3,
  index-lt buf 4,
  index-lt buf 5,
  index-lt buf 6,
  index-lt buf 7,
  index-lt buf 8,
)

from_bytes_rejects :
    (buf : List ℕ)
    → (length buf < 9) ⊎ (get_or buf 1 0 ≢ 0x02)
    → from_bytes buf ≡ err invalid_descriptor
unfolding from_bytes
from_bytes_rejects buf h = ground (arith, index-lt buf 1)

-- On any buffer the parser returns, with no panic and no endless loop. With at least 9 bytes and the
-- tag 2 the result is the header's fields, and the interfaces assembled from the records into which
-- the bytes between the header and `wTotalLength` fall; any other buffer is `invalid_descriptor`.
pub config_from_bytes_total :
    (buf : List ℕ)
    → ((9 ≤ length buf)
        × (get_or buf 1 0 ≡ 0x02)
        × (cs : List (List ℕ)) × Chunked 2 (nested_area buf) cs
        × (from_bytes buf ≡ ok (with_interfaces buf (assemble [] cs))))
      ⊎ (((length buf < 9) ⊎ (get_or buf 1 0 ≢ 0x02)) × (from_bytes buf ≡ err invalid_descriptor))
config_from_bytes_total buf = elim (Bool-cases (ltb (length buf) 9 || not (get_or buf 1 0 == 2))) [
  | inl e ↦
      let bad : (length buf < 9) ⊎ (get_or buf 1 0 ≢ 0x02) = ground arith in
      inr (bad, from_bytes_rejects buf bad)
  | inr e ↦
      let (cs, ch) = chunked 2 (nested_area buf) (omega arith) in
      inl (
        ground arith,
        ground arith,
        cs,
        ch,
        from_bytes-assemble buf (ground arith) (ground arith) ch,
      )
]
