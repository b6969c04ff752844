-- ===== src/Descriptor/Bos/RoundTrip.antt =====
-- A BOS descriptor written out as the specification lays it out parses back to itself.
use rust_usb.Base.{
  ℕ, suc, ◌+◌, ◌*◌, ◌/◌, ◌%◌, ◌≡◌, ◌≢◌, refl, List, [], ◌∷◌, ◌++◌, arith, length, get_or, inl, ap,
  ◌∙◌, take, drop, All, take-append_self, append_assoc, take_all, sym, append-nil,
}
use rust_usb.Error.{ok}
use rust_usb.Descriptor.Chunks.{Chunked, stop, more}
use rust_usb.Descriptor.Bos.{BosCapability, BosDescriptor, from_bytes}
use rust_usb.Descriptor.Bos.Refine.{decode, add_decoded, decode_all}
use rust_usb.Descriptor.Bos.Total.{from_bytes-decode_all, nested_area}

-- The records of section 9.6.2 of the USB 3 specification. A reserved byte is 0.
abbrev pub encode_capability : BosCapability → List ℕ
encode_capability (BosCapability.usb20_extension c) =
    7
    ∷ 0x10
    ∷ 2
    ∷ (c.attributes % 256)
    ∷ (c.attributes / 256 % 256)
    ∷ (c.attributes / 65536 % 256)
    ∷ (c.attributes / 16777216)
    ∷ []
encode_capability (BosCapability.super_speed_usb c) =
    10
    ∷ 0x10
    ∷ 3
    ∷ c.attributes
    ∷ (c.speed_supported % 256)
    ∷ (c.speed_supported / 256)
    ∷ c.functionality_support
    ∷ c.u1_dev_exit_lat
    ∷ (c.u2_dev_exit_lat % 256)
    ∷ (c.u2_dev_exit_lat / 256)
    ∷ []
encode_capability (BosCapability.container_id c) = 20 ∷ 0x10 ∷ 4 ∷ 0 ∷ c.container_id
encode_capability (BosCapability.unknown t raw) = suc (suc (suc (length raw))) ∷ 0x10 ∷ t ∷ raw

-- A container id has 16 bytes, and a raw capability is not of a type that is understood.
abbrev pub IsCapability : BosCapability → Type 0
IsCapability (BosCapability.usb20_extension c) = Unit {0}
IsCapability (BosCapability.super_speed_usb c) = Unit {0}
IsCapability (BosCapability.container_id c) = length c.container_id ≡ 16
IsCapability (BosCapability.unknown t raw) = (t ≢ 2) × (t ≢ 3) × (t ≢ 4)

abbrev records : List BosCapability → List (List ℕ)
records [] = []
records (c ∷ cs) = encode_capability c ∷ records cs

abbrev concat : List (List ℕ) → List ℕ
concat [] = []
concat (c ∷ cs) = c ++ concat cs

abbrev pub encode : BosDescriptor → List ℕ
encode d =
    5
    ∷ 0x0F
    ∷ (d.total_length % 256)
    ∷ (d.total_length / 256)
    ∷ d.num_device_caps
    ∷ concat (records d.capabilities)

records-Chunked :
    (caps : List BosCapability)
    → All IsCapability caps
    → Chunked 3 (concat (records caps)) (records caps)
records-Chunked [] h = stop (inl (omega arith))
records-Chunked (BosCapability.usb20_extension c ∷ caps) (hc, h) =
    more (encode_capability (BosCapability.usb20_extension c)) _ refl (omega arith) refl
      (records-Chunked caps h)
records-Chunked (BosCapability.super_speed_usb c ∷ caps) (hc, h) =
    more (encode_capability (BosCapability.super_speed_usb c)) _ refl (omega arith) refl
      (records-Chunked caps h)
records-Chunked (BosCapability.container_id c ∷ caps) (hc, h) =
    more (encode_capability (BosCapability.container_id c)) _ refl (omega arith) (omega arith)
      (records-Chunked caps h)
records-Chunked (BosCapability.unknown t raw ∷ caps) (hc, h) =
    more (encode_capability (BosCapability.unknown t raw)) _ refl (omega arith) refl
      (records-Chunked caps h)

decode-encode_capability : (c : BosCapability) → IsCapability c → decode (encode_capability c) ≡ c
unfolding decode
decode-encode_capability (BosCapability.usb20_extension c) h = ground arith
decode-encode_capability (BosCapability.super_speed_usb c) h = ground arith
decode-encode_capability (BosCapability.container_id c) h =
    ground (arith, take_all 16 c.container_id (omega arith))
decode-encode_capability (BosCapability.unknown t raw) (h2, h3, h4) = ground arith

add_decoded-encode_capability :
    (caps : List BosCapability) (c : BosCapability)
    → IsCapability c
    → add_decoded caps (encode_capability c) ≡ caps ++ (c ∷ [])
unfolding add_decoded
add_decoded-encode_capability caps c h = rw (tag_of c, decode-encode_capability c h) refl
  where
    tag_of : (c : BosCapability) → get_or (encode_capability c) 1 0 ≡ 0x10
    tag_of (BosCapability.usb20_extension c) = refl
    tag_of (BosCapability.super_speed_usb c) = refl
    tag_of (BosCapability.container_id c) = refl
    tag_of (BosCapability.unknown t raw) = refl

decode_all-records :
    (caps before : List BosCapability)
    → All IsCapability caps
    → decode_all before (records caps) ≡ before ++ caps
unfolding decode_all
decode_all-records [] before h = sym (append-nil before)
decode_all-records (c ∷ caps) before (hc, h) =
    ap (λ l. decode_all l (records caps)) (add_decoded-encode_capability before c hc)
    ∙ decode_all-records caps (before ++ (c ∷ [])) h
    ∙ append_assoc before (c ∷ []) caps

take_front : (xs ys : List ℕ) (n : ℕ) → n ≡ length xs → take n (xs ++ ys) ≡ xs
take_front xs ys n e = rw e (take-append_self xs ys)

-- A BOS descriptor whose total length is that of its encoding, with 16 bytes in each container id
-- and no raw capability of a type that is understood: written out, with any bytes behind it, it
-- parses to the very same descriptor.
pub bos_from_bytes-encode :
    (d : BosDescriptor) (rest : List ℕ)
    → All IsCapability d.capabilities
    → d.total_length ≡ length (encode d)
    → from_bytes (encode d ++ rest) ≡ ok d
bos_from_bytes-encode d rest h e =
    let cs = records d.capabilities in
    let total : d.total_length % 256 + 256 * (d.total_length / 256) ≡ d.total_length =
      omega arith in
    let area : nested_area (encode d ++ rest) ≡ concat cs =
      ap (drop 5) (take_front (encode d) rest _ (total ∙ e)) in
    let pieces : Chunked 3 (nested_area (encode d ++ rest)) cs =
      rw area (records-Chunked d.capabilities h) in
    from_bytes-decode_all (encode d ++ rest) (omega arith) refl pieces
    ∙ ap ok (rw (total, decode_all-records d.capabilities [] h))
