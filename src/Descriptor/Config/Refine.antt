-- ===== src/Descriptor/Config/Refine.antt =====
-- The loop of `ConfigDescriptor::from_bytes` against its specification: cut the blob into records,
-- and attach each record that parses, in order.
use rust_usb.Base.{
  modify_last, ℕ, zero, suc, ◌+◌, ◌≤◌, ◌<◌, ◌≡◌, refl, List, [], ◌∷◌, ◌++◌, arith, length, get_or,
  ◌==◌, if◌then◌else◌, ap, ◌∙◌, length-append, append_assoc, zero,
}
use rust_usb.Error.{Result, ok, err, panic, no_fuel}
use rust_usb.Bytes.{index, slice, index-area, slice-append}
use rust_usb.Descriptor.Chunks.{Stops, Chunked, stop, more}
use rust_usb.Descriptor.Companion
use rust_usb.Descriptor.Endpoint
use rust_usb.Descriptor.Hid
use rust_usb.Descriptor.Interface
use rust_usb.Descriptor.Interface.{InterfaceDescriptor}
use rust_usb.Descriptor.Config.{attach, walk, push_endpoint, set_hid, set_companion}

-- What a parser returned, or nothing.
abbrev pub on_ok {ℓ κ} : {A : Type ℓ} {B : Type κ} → Result A → (A → B) → B → B
on_ok (ok a) f b = f a
on_ok (err e) f b = b
on_ok panic f b = b
on_ok no_fuel f b = b

-- One record: by its tag it opens an interface or adds to the last one; any other is skipped.
unfoldable pub attach_chunk : List InterfaceDescriptor → List ℕ → List InterfaceDescriptor
attach_chunk ifaces chunk =
    let tag = get_or chunk 1 0 in
    if tag == 0x04
    then on_ok (Interface.from_bytes_at chunk) (λ i. ifaces ++ (i ∷ [])) ifaces
    else (if tag == 0x05
        then on_ok (Endpoint.from_bytes_at chunk) (λ e. modify_last (push_endpoint e) ifaces) ifaces
        else (if tag == 0x21
            then on_ok (Hid.from_bytes_at chunk) (λ h. modify_last (set_hid h) ifaces) ifaces
            else (if tag == 0x30
                then on_ok (Companion.from_bytes_at chunk)
                    (λ c. modify_last (set_companion c) ifaces) ifaces
                else ifaces)))

unfoldable pub assemble : List InterfaceDescriptor → List (List ℕ) → List InterfaceDescriptor
assemble ifaces [] = ifaces
assemble ifaces (c ∷ cs) = assemble (attach_chunk ifaces c) cs

attach-attach_chunk :
    (buf chunk : List ℕ) (pos : ℕ) (ifaces : List InterfaceDescriptor)
    → slice buf pos (pos + length chunk) ≡ ok chunk
    → attach buf pos (length chunk) (get_or chunk 1 0) ifaces ≡ ok (attach_chunk ifaces chunk)
unfolding attach attach_chunk
attach-attach_chunk buf chunk pos ifaces e = ground (
  arith,
  Interface.from_bytes_at_total chunk,
  Endpoint.from_bytes_at_total chunk,
  Hid.from_bytes_at_total chunk,
  Companion.from_bytes_at_total chunk,
)

-- One round of the loop on a complete record.
walk_step :
    (fuel : ℕ) (buf : List ℕ) (end pos : ℕ) (ifaces : List InterfaceDescriptor) (chunk : List ℕ)
    → index buf pos ≡ ok (length chunk)
    → index buf (pos + 1) ≡ ok (get_or chunk 1 0)
    → slice buf pos (pos + length chunk) ≡ ok chunk
    → 2 ≤ length chunk
    → pos + length chunk ≤ end
    → walk (suc fuel) buf end pos ifaces
      ≡ walk fuel buf end (pos + length chunk) (attach_chunk ifaces chunk)
unfolding walk
walk_step fuel buf end pos ifaces chunk e0 e1 es h2 he =
    ground (arith, attach-attach_chunk buf chunk pos ifaces es)

-- The loop ends where no complete record is left.
walk_stop :
    (fuel : ℕ) (pre area post : List ℕ) (ifaces : List InterfaceDescriptor)
    → Stops 2 area
    → walk (suc fuel) (pre ++ (area ++ post)) (length pre + length area) (length pre) ifaces
      ≡ ok ifaces
unfolding walk
walk_stop fuel pre area post ifaces s = ground (
  arith,
  index-area pre area post 0 (length pre) (omega arith),
  index-area pre area post 1 (length pre + 1) (omega arith),
)

walk_more :
    (fuel : ℕ) (pre chunk rest post : List ℕ) (ifaces : List InterfaceDescriptor)
    → 2 ≤ length chunk
    → get_or chunk 0 0 ≡ length chunk
    → walk
        (suc fuel)
        (pre ++ ((chunk ++ rest) ++ post))
        (length pre + length (chunk ++ rest))
        (length pre)
        ifaces
      ≡ walk fuel
          ((pre ++ chunk) ++ (rest ++ post))
          (length (pre ++ chunk) + length rest)
          (length (pre ++ chunk))
          (attach_chunk ifaces chunk)
walk_more fuel pre chunk rest post ifaces size len =
    let end : length pre + length (chunk ++ rest) ≡ length pre + length chunk + length rest =
      omega (arith, length-append chunk rest) in
    rw
      (
        append_assoc chunk rest post,
        append_assoc pre chunk (rest ++ post),
        length-append pre chunk,
        end,
      )
      (walk_step fuel (pre ++ (chunk ++ (rest ++ post))) (length pre + length chunk + length rest)
        (length pre) ifaces chunk
        (index-area pre chunk (rest ++ post) 0 (length pre) (omega arith) (omega arith) ∙ ap ok len)
        (index-area pre chunk (rest ++ post) 1 (length pre + 1) refl (omega arith))
        (slice-append pre chunk (rest ++ post)) size (omega arith))

pub walk-assemble :
    {area : List ℕ} {cs : List (List ℕ)}
    → Chunked 2 area cs
    → (fuel : ℕ) (pre post : List ℕ) (ifaces : List InterfaceDescriptor) → length area < fuel
    → walk fuel (pre ++ (area ++ post)) (length pre + length area) (length pre) ifaces
      ≡ ok (assemble ifaces cs)
unfolding assemble
walk-assemble ch zero pre post ifaces h = absurd (omega arith)
walk-assemble {area} (stop s) (suc fuel) pre post ifaces h = walk_stop fuel pre area post ifaces s
walk-assemble {area} (more {cs = cs} chunk rest e size len ch) (suc fuel) pre post ifaces h =
    let shorter : length rest < fuel = omega (arith, ap length e, length-append chunk rest) in
    rw e (
      walk_more fuel pre chunk rest post ifaces size len
      ∙ walk-assemble ch fuel (pre ++ chunk) post (attach_chunk ifaces chunk) shorter)
