-- ===== src/Descriptor/Bos/Refine.antt =====
-- The loop of `BosDescriptor::from_bytes` against its specification: cut the blob into records, and
-- decode each device capability, in order.
use rust_usb.Base.{
  ℕ, zero, suc, ◌+◌, ◌-◌, ◌≤◌, ◌<◌, ◌≡◌, refl, List, [], ◌∷◌, ◌++◌, arith, length, get_or, ◌==◌,
  if◌then◌else◌, ap, ◌∙◌, length-append, append_assoc, take, drop, ◌&&◌, leb, take_all, length-drop,
}
use rust_usb.Error.{ok}
use rust_usb.Bytes.{
  index, index-lt, slice, index-area, slice-append, u16_from_le_bytes, u32_from_le_bytes,
}
use rust_usb.Descriptor.Chunks.{Stops, Chunked, stop, more}
use rust_usb.Descriptor.Bos.{BosCapability, capability, add_record, walk}

-- A capability by its type, if it is long enough for that; its raw bytes otherwise.
unfoldable pub decode : List ℕ → BosCapability
decode c =
    let at = get_or c in
    if at 2 0 == 2 && leb 7 (length c)
    then BosCapability.usb20_extension
        (record { attributes = u32_from_le_bytes (at 3 0) (at 4 0) (at 5 0) (at 6 0) })
    else (if at 2 0 == 3 && leb 10 (length c)
        then BosCapability.super_speed_usb (record {
          attributes = at 3 0;
          speed_supported = u16_from_le_bytes (at 4 0) (at 5 0);
          functionality_support = at 6 0;
          u1_dev_exit_lat = at 7 0;
          u2_dev_exit_lat = u16_from_le_bytes (at 8 0) (at 9 0);
        })
        else (if at 2 0 == 4 && leb 20 (length c)
            then BosCapability.container_id (record { container_id = take 16 (drop 4 c) })
            else BosCapability.unknown (at 2 0) (drop 3 c)))

-- A record that is no device capability is skipped.
unfoldable pub add_decoded : List BosCapability → List ℕ → List BosCapability
add_decoded caps c = if get_or c 1 0 == 0x10 then caps ++ (decode c ∷ []) else caps

unfoldable pub decode_all : List BosCapability → List (List ℕ) → List BosCapability
decode_all caps [] = caps
decode_all caps (c ∷ cs) = decode_all (add_decoded caps c) cs

capability-decode :
    (c : List ℕ) → 3 ≤ length c → capability (get_or c 2 0) (length c) c ≡ ok (decode c)
unfolding capability decode slice
capability-decode c h = ground (
  arith,
  index-lt c 3,
  index-lt c 4,
  index-lt c 5,
  index-lt c 6,
  index-lt c 7,
  index-lt c 8,
  index-lt c 9,
  take_all (length c - 3) (drop 3 c),
  length-drop 3 c,
)

add_record-decode :
    (buf c : List ℕ) (pos : ℕ) (caps : List BosCapability)
    → 3 ≤ length c
    → slice buf pos (pos + length c) ≡ ok c
    → add_record buf pos (length c) (get_or c 1 0) (get_or c 2 0) caps ≡ ok (add_decoded caps c)
unfolding add_record add_decoded
add_record-decode buf c pos caps h e = ground (arith, capability-decode c h)

-- One round of the loop on a complete record.
walk_step :
    (fuel : ℕ) (buf : List ℕ) (end pos : ℕ) (caps : List BosCapability) (c : List ℕ)
    → index buf pos ≡ ok (length c)
    → index buf (pos + 1) ≡ ok (get_or c 1 0)
    → index buf (pos + 2) ≡ ok (get_or c 2 0)
    → slice buf pos (pos + length c) ≡ ok c
    → 3 ≤ length c
    → pos + length c ≤ end
    → walk (suc fuel) buf end pos caps ≡ walk fuel buf end (pos + length c) (add_decoded caps c)
unfolding walk
walk_step fuel buf end pos caps c e0 e1 e2 es h3 he =
    ground (arith, add_record-decode buf c pos caps h3 es)

-- The loop ends where no complete record is left.
walk_stop :
    (fuel : ℕ) (pre area post : List ℕ) (caps : List BosCapability)
    → Stops 3 area
    → walk (suc fuel) (pre ++ (area ++ post)) (length pre + length area) (length pre) caps ≡ ok caps
unfolding walk
walk_stop fuel pre area post caps s = ground (
  arith,
  index-area pre area post 0 (length pre) (omega arith),
  index-area pre area post 1 (length pre + 1) (omega arith),
  index-area pre area post 2 (length pre + 2) (omega arith),
)

walk_more :
    (fuel : ℕ) (pre c rest post : List ℕ) (caps : List BosCapability)
    → 3 ≤ length c
    → get_or c 0 0 ≡ length c
    → walk
        (suc fuel)
        (pre ++ ((c ++ rest) ++ post))
        (length pre + length (c ++ rest))
        (length pre)
        caps
      ≡ walk fuel
          ((pre ++ c) ++ (rest ++ post))
          (length (pre ++ c) + length rest)
          (length (pre ++ c))
          (add_decoded caps c)
walk_more fuel pre c rest post caps size len =
    let end : length pre + length (c ++ rest) ≡ length pre + length c + length rest =
      omega (arith, length-append c rest) in
    rw (append_assoc c rest post, append_assoc pre c (rest ++ post), length-append pre c, end)
      (walk_step fuel (pre ++ (c ++ (rest ++ post))) (length pre + length c + length rest)
        (length pre) caps c
        (index-area pre c (rest ++ post) 0 (length pre) (omega arith) (omega arith) ∙ ap ok len)
        (index-area pre c (rest ++ post) 1 (length pre + 1) refl (omega arith))
        (index-area pre c (rest ++ post) 2 (length pre + 2) refl (omega arith))
        (slice-append pre c (rest ++ post)) size (omega arith))

pub walk-decode_all :
    {area : List ℕ} {cs : List (List ℕ)}
    → Chunked 3 area cs
    → (fuel : ℕ) (pre post : List ℕ) (caps : List BosCapability) → length area < fuel
    → walk fuel (pre ++ (area ++ post)) (length pre + length area) (length pre) caps
      ≡ ok (decode_all caps cs)
unfolding decode_all
walk-decode_all ch zero pre post caps h = absurd (omega arith)
walk-decode_all {area} (stop s) (suc fuel) pre post caps h = walk_stop fuel pre area post caps s
walk-decode_all {area} (more {cs = cs} c rest e size len ch) (suc fuel) pre post caps h =
    let shorter : length rest < fuel = omega (arith, ap length e, length-append c rest) in
    rw e (
      walk_more fuel pre c rest post caps size len
      ∙ walk-decode_all {area = rest} ch fuel (pre ++ c) post (add_decoded caps c) shorter)
