-- ===== src/Descriptor/Config/RoundTrip.antt =====
-- A configuration written out as the specification lays it out parses back to itself.
use rust_usb.Base.{
  modify_last-append, ℕ, ◌+◌, ◌*◌, ◌/◌, ◌%◌, ◌≡◌, refl, sym, List, [], ◌∷◌, ◌++◌, arith, length, ap,
  ◌∙◌, take, drop, append_assoc, append-nil, Option, none, some, take-append_self,
}
use rust_usb.Error.{ok}
use rust_usb.Descriptor.Chunks.{Chunked}
use rust_usb.Descriptor.Companion.{SuperSpeedEndpointCompanion}
use rust_usb.Descriptor.Companion
use rust_usb.Descriptor.Endpoint.{EndpointDescriptor}
use rust_usb.Descriptor.Endpoint
use rust_usb.Descriptor.Hid.{HidDescriptor}
use rust_usb.Descriptor.Hid
use rust_usb.Descriptor.Interface.{InterfaceDescriptor}
use rust_usb.Descriptor.Interface
use rust_usb.Descriptor.Config.{ConfigDescriptor, from_bytes, push_endpoint, set_hid, set_companion}
use rust_usb.Descriptor.Config.Refine.{attach_chunk, assemble}
use rust_usb.Descriptor.Config.Total.{from_bytes-assemble, nested_area}
use rust_usb.Descriptor.Config.Encode.{
  companion_chunks, hid_chunks, endpoint_chunks, interface_chunks, concat, encode, concat-Chunked,
  interface_chunks-IsRecord,
}

assemble-append :
    (ifaces : List InterfaceDescriptor) (xs ys : List (List ℕ))
    → assemble ifaces (xs ++ ys) ≡ assemble (assemble ifaces xs) ys
unfolding assemble
assemble-append ifaces [] ys = refl
assemble-append ifaces (x ∷ xs) ys = assemble-append (attach_chunk ifaces x) xs ys

attach_chunk-interface :
    (ifaces : List InterfaceDescriptor) (i : InterfaceDescriptor)
    → attach_chunk ifaces (Interface.encode i)
      ≡ ifaces ++ (record i { endpoints = []; hid_descriptor = none } ∷ [])
unfolding attach_chunk
attach_chunk-interface ifaces i =
    rw
      (Interface.from_bytes_at-encode (record i { endpoints = []; hid_descriptor = none }) [] refl
        refl)
      refl

attach_chunk-hid :
    (ifaces : List InterfaceDescriptor) (i : InterfaceDescriptor) (h : HidDescriptor)
    → attach_chunk (ifaces ++ (i ∷ [])) (Hid.encode h) ≡ ifaces ++ (set_hid h i ∷ [])
unfolding attach_chunk
attach_chunk-hid ifaces i h =
    rw (Hid.from_bytes_at-encode h []) (modify_last-append (set_hid h) ifaces i)

attach_chunk-endpoint :
    (ifaces : List InterfaceDescriptor) (i : InterfaceDescriptor) (ep : EndpointDescriptor)
    → attach_chunk (ifaces ++ (i ∷ [])) (Endpoint.encode ep)
      ≡ ifaces ++ (push_endpoint (record ep { ss_companion = none }) i ∷ [])
unfolding attach_chunk
attach_chunk-endpoint ifaces i ep =
    let bare = record ep { ss_companion = none } in
    rw (Endpoint.from_bytes_at-encode bare [] refl)
      (modify_last-append (push_endpoint bare) ifaces i)

attach_chunk-companion :
    (ifaces : List InterfaceDescriptor) (i : InterfaceDescriptor) (c : SuperSpeedEndpointCompanion)
    → attach_chunk (ifaces ++ (i ∷ [])) (Companion.encode c) ≡ ifaces ++ (set_companion c i ∷ [])
unfolding attach_chunk
attach_chunk-companion ifaces i c =
    rw (Companion.from_bytes_at-encode c []) (modify_last-append (set_companion c) ifaces i)

-- A companion lands on the endpoint pushed last.
set_companion-push :
    (c : SuperSpeedEndpointCompanion) (ep : EndpointDescriptor) (i : InterfaceDescriptor)
    → set_companion c (push_endpoint ep i) ≡ push_endpoint (record ep { ss_companion = some c }) i
set_companion-push c ep i =
    ap (λ eps. record i { endpoints = eps })
      (modify_last-append (λ e. record e { ss_companion = some c }) i.endpoints ep)

assemble-endpoint :
    (ifaces : List InterfaceDescriptor) (i : InterfaceDescriptor) (ep : EndpointDescriptor)
    → assemble (ifaces ++ (i ∷ [])) (Endpoint.encode ep ∷ companion_chunks ep.ss_companion)
      ≡ ifaces ++ (push_endpoint ep i ∷ [])
unfolding assemble
assemble-endpoint ifaces i ep = split ep.ss_companion refl
  where
    with_companion : Option SuperSpeedEndpointCompanion → List InterfaceDescriptor
    with_companion o = ifaces ++ (push_endpoint (record ep { ss_companion = o }) i ∷ [])

    split :
        (c : Option SuperSpeedEndpointCompanion)
        → ep.ss_companion ≡ c
        → assemble (ifaces ++ (i ∷ [])) (Endpoint.encode ep ∷ companion_chunks c)
          ≡ ifaces ++ (push_endpoint ep i ∷ [])
    split none e = attach_chunk-endpoint ifaces i ep ∙ ap with_companion (sym e)
    split (some c) e =
        ap (λ l. attach_chunk l (Companion.encode c)) (attach_chunk-endpoint ifaces i ep)
        ∙ attach_chunk-companion ifaces (push_endpoint (record ep { ss_companion = none }) i) c
        ∙ ap (λ x. ifaces ++ (x ∷ [])) (set_companion-push c (record ep { ss_companion = none }) i)
        ∙ ap with_companion (sym e)

assemble-endpoints :
    (eps : List EndpointDescriptor) (ifaces : List InterfaceDescriptor) (i : InterfaceDescriptor)
    → assemble (ifaces ++ (i ∷ [])) (endpoint_chunks eps)
      ≡ ifaces ++ (record i { endpoints = i.endpoints ++ eps } ∷ [])
assemble-endpoints [] ifaces i =
    unfold assemble in
    ap (λ l. ifaces ++ (record i { endpoints = l } ∷ [])) (sym (append-nil i.endpoints))
assemble-endpoints (ep ∷ eps) ifaces i =
    assemble-append (ifaces ++ (i ∷ [])) (Endpoint.encode ep ∷ companion_chunks ep.ss_companion)
      (endpoint_chunks eps)
    ∙ ap (λ l. assemble l (endpoint_chunks eps)) (assemble-endpoint ifaces i ep)
    ∙ assemble-endpoints eps ifaces (push_endpoint ep i)
    ∙ ap (λ l. ifaces ++ (record i { endpoints = l } ∷ [])) (append_assoc i.endpoints (ep ∷ []) eps)

assemble-hid :
    (o : Option HidDescriptor) (ifaces : List InterfaceDescriptor) (i : InterfaceDescriptor)
    → i.hid_descriptor ≡ none
    → assemble (ifaces ++ (i ∷ [])) (hid_chunks o)
      ≡ ifaces ++ (record i { hid_descriptor = o } ∷ [])
unfolding assemble
assemble-hid none ifaces i e = ap (λ o. ifaces ++ (record i { hid_descriptor = o } ∷ [])) e
assemble-hid (some h) ifaces i e = attach_chunk-hid ifaces i h

assemble-interfaces :
    (is ifaces : List InterfaceDescriptor) → assemble ifaces (interface_chunks is) ≡ ifaces ++ is
unfolding assemble
assemble-interfaces [] ifaces = sym (append-nil ifaces)
assemble-interfaces (i ∷ is) ifaces =
    let bare = record i { endpoints = []; hid_descriptor = none } in
    let later = endpoint_chunks i.endpoints ++ interface_chunks is in
    ap (λ l. assemble l (hid_chunks i.hid_descriptor ++ later)) (attach_chunk-interface ifaces i)
    ∙ assemble-append (ifaces ++ (bare ∷ [])) (hid_chunks i.hid_descriptor) later
    ∙ ap (λ l. assemble l later) (assemble-hid i.hid_descriptor ifaces bare refl)
    ∙ assemble-append (ifaces ++ (record i { endpoints = [] } ∷ [])) (endpoint_chunks i.endpoints)
        (interface_chunks is)
    ∙ ap (λ l. assemble l (interface_chunks is))
        (assemble-endpoints i.endpoints ifaces (record i { endpoints = [] }))
    ∙ assemble-interfaces is (ifaces ++ (i ∷ []))
    ∙ append_assoc ifaces (i ∷ []) is

take_front : (xs ys : List ℕ) (n : ℕ) → n ≡ length xs → take n (xs ++ ys) ≡ xs
take_front xs ys n e = rw e (take-append_self xs ys)

-- A configuration whose total length is that of its encoding: written out, with any bytes behind it,
-- it parses to the very same configuration, with every interface, HID descriptor, endpoint and
-- companion in its place.
pub config_from_bytes-encode :
    (c : ConfigDescriptor) (rest : List ℕ)
    → c.total_length ≡ length (encode c)
    → from_bytes (encode c ++ rest) ≡ ok c
config_from_bytes-encode c rest e =
    let cs = interface_chunks c.interfaces in
    let total : c.total_length % 256 + 256 * (c.total_length / 256) ≡ c.total_length =
      omega arith in
    let area : nested_area (encode c ++ rest) ≡ concat cs =
      ap (drop 9) (take_front (encode c) rest _ (total ∙ e)) in
    let pieces : Chunked 2 (nested_area (encode c ++ rest)) cs =
      rw area (concat-Chunked cs (interface_chunks-IsRecord c.interfaces)) in
    from_bytes-assemble (encode c ++ rest) (omega arith) refl pieces
    ∙ ap ok (rw (total, assemble-interfaces c.interfaces []))
