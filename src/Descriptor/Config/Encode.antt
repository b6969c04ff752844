-- ===== src/Descriptor/Config/Encode.antt =====
-- The blob of a configuration descriptor as section 9.6.3 of the USB specification lays it out.
use rust_usb.Base.{
  All-append, ℕ, ◌/◌, ◌%◌, ◌≤◌, ◌≡◌, refl, List, [], ◌∷◌, ◌++◌, arith, length, get_or, inl, All,
  Option, none, some,
}
use rust_usb.Descriptor.Chunks.{Chunked, stop, more}
use rust_usb.Descriptor.Companion.{SuperSpeedEndpointCompanion}
use rust_usb.Descriptor.Companion
use rust_usb.Descriptor.Endpoint.{EndpointDescriptor}
use rust_usb.Descriptor.Endpoint
use rust_usb.Descriptor.Hid.{HidDescriptor}
use rust_usb.Descriptor.Hid
use rust_usb.Descriptor.Interface.{InterfaceDescriptor}
use rust_usb.Descriptor.Interface
use rust_usb.Descriptor.Config.{ConfigDescriptor}

abbrev pub companion_chunks : Option SuperSpeedEndpointCompanion → List (List ℕ)
companion_chunks none = []
companion_chunks (some c) = Companion.encode c ∷ []

abbrev pub hid_chunks : Option HidDescriptor → List (List ℕ)
hid_chunks none = []
hid_chunks (some h) = Hid.encode h ∷ []

-- An endpoint is followed by its companion.
abbrev pub endpoint_chunks : List EndpointDescriptor → List (List ℕ)
endpoint_chunks [] = []
endpoint_chunks (ep ∷ eps) =
    Endpoint.encode ep ∷ (companion_chunks ep.ss_companion ++ endpoint_chunks eps)

-- An interface is followed by its HID descriptor and its endpoints.
abbrev pub interface_chunks : List InterfaceDescriptor → List (List ℕ)
interface_chunks [] = []
interface_chunks (i ∷ is) =
    Interface.encode i
    ∷ (hid_chunks i.hid_descriptor ++ (endpoint_chunks i.endpoints ++ interface_chunks is))

abbrev pub concat : List (List ℕ) → List ℕ
concat [] = []
concat (c ∷ cs) = c ++ concat cs

abbrev pub header : ConfigDescriptor → List ℕ
header c =
    9
    ∷ 2
    ∷ (c.total_length % 256)
    ∷ (c.total_length / 256)
    ∷ c.num_interfaces
    ∷ c.configuration_value
    ∷ c.configuration_index
    ∷ c.attributes
    ∷ c.max_power
    ∷ []

-- The blob of section 9.6.3 of the USB specification: the header, then the records.
abbrev pub encode : ConfigDescriptor → List ℕ
encode c = header c ++ concat (interface_chunks c.interfaces)

abbrev pub IsRecord : List ℕ → Type 0
IsRecord chunk = (2 ≤ length chunk) × (get_or chunk 0 0 ≡ length chunk)

pub concat-Chunked : (cs : List (List ℕ)) → All IsRecord cs → Chunked 2 (concat cs) cs
concat-Chunked [] h = stop (inl (omega arith))
concat-Chunked (c ∷ cs) ((size, len), h) = more c (concat cs) refl size len (concat-Chunked cs h)

companion_chunks-IsRecord :
    (c : Option SuperSpeedEndpointCompanion) → All IsRecord (companion_chunks c)
companion_chunks-IsRecord none = tt
companion_chunks-IsRecord (some c) = omega arith

hid_chunks-IsRecord : (h : Option HidDescriptor) → All IsRecord (hid_chunks h)
hid_chunks-IsRecord none = tt
hid_chunks-IsRecord (some h) = omega arith

endpoint_chunks-IsRecord : (eps : List EndpointDescriptor) → All IsRecord (endpoint_chunks eps)
endpoint_chunks-IsRecord [] = tt
endpoint_chunks-IsRecord (ep ∷ eps) = (
  omega arith,
  All-append IsRecord (companion_chunks ep.ss_companion) (endpoint_chunks eps)
      (companion_chunks-IsRecord ep.ss_companion) (endpoint_chunks-IsRecord eps),
)

pub interface_chunks-IsRecord : (is : List InterfaceDescriptor) → All IsRecord (interface_chunks is)
interface_chunks-IsRecord [] = tt
interface_chunks-IsRecord (i ∷ is) = (
  omega arith,
  All-append IsRecord (hid_chunks i.hid_descriptor) _ (hid_chunks-IsRecord i.hid_descriptor) (
      All-append IsRecord (endpoint_chunks i.endpoints) (interface_chunks is)
        (endpoint_chunks-IsRecord i.endpoints) (interface_chunks-IsRecord is)),
)
