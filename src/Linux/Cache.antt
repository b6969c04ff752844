-- ===== src/Linux/Cache.antt =====
-- The endpoint cache: what `get_pipe_info` answers for a device that serves its configuration.
use rust_usb.Base.{
  ℕ, ◌<◌, ◌≡◌, refl, ◌∙◌, sym, ap, List, [], ◌∷◌, ◌++◌, Option, none, some, arith, length, ◌==◌,
  if◌then◌else◌, lookup, insert, lookup-insert, nat_eq, Option-cases, ◌⊎◌, inl, inr,
}
use rust_usb.Error.{Result, ok}
use rust_usb.Endpoint.{EndpointInfo}
use rust_usb.Endpoint
use rust_usb.Descriptor.Endpoint.{EndpointDescriptor}
use rust_usb.Descriptor.Interface.{InterfaceDescriptor}
use rust_usb.Descriptor.Config.{ConfigDescriptor}
use rust_usb.Descriptor.Config.Encode
use rust_usb.Backend.{and_then_ok}
use rust_usb.Linux.{Kernel, Attached, ioctl_set_interface, map_errno, done}
use rust_usb.Linux.Device.{
  read_config_descriptor_impl, refresh_endpoint_cache, cache_from, insert_endpoints, get_pipe_info,
  set_alternate_setting, hit_or_refresh, found_or_not, best_effort, best_effort_ok,
}
use rust_usb.Linux.Read.{Serves, read_config_descriptor-Serves}

-- All endpoints of a configuration, those of every alternate setting, in the order of the descriptor.
abbrev pub endpoints_of : List InterfaceDescriptor → List EndpointDescriptor
endpoints_of [] = []
endpoints_of (i ∷ is) = i.endpoints ++ endpoints_of is

abbrev pub info_of : EndpointDescriptor → EndpointInfo
info_of ep = Endpoint.new ep.endpoint_address ep.attributes ep.max_packet_size ep.interval

-- The last endpoint with the address, if there is one, and else `before`.
abbrev pub last_info : ℕ → List EndpointDescriptor → Option EndpointInfo → Option EndpointInfo
last_info e [] before = before
last_info e (ep ∷ eps) before =
    last_info e eps (if ep.endpoint_address == e then some (info_of ep) else before)

lookup-insert_endpoints :
    (e : ℕ) (eps : List EndpointDescriptor) (m : List (ℕ × EndpointInfo))
    → lookup e (insert_endpoints eps m) ≡ last_info e eps (lookup e m)
lookup-insert_endpoints e [] m = refl
lookup-insert_endpoints e (ep ∷ eps) m =
    lookup-insert_endpoints e eps (insert ep.endpoint_address (info_of ep) m)
    ∙ ap (last_info e eps) (lookup-insert ep.endpoint_address e (info_of ep) m)

last_info-append :
    (e : ℕ) (xs ys : List EndpointDescriptor) (b : Option EndpointInfo)
    → last_info e (xs ++ ys) b ≡ last_info e ys (last_info e xs b)
last_info-append e [] ys b = refl
last_info-append e (x ∷ xs) ys b = last_info-append e xs ys _

pub lookup-cache_from :
    (e : ℕ) (is : List InterfaceDescriptor) (m : List (ℕ × EndpointInfo))
    → lookup e (cache_from is m) ≡ last_info e (endpoints_of is) (lookup e m)
lookup-cache_from e [] m = refl
lookup-cache_from e (i ∷ is) m =
    lookup-cache_from e is (insert_endpoints i.endpoints m)
    ∙ ap (last_info e (endpoints_of is)) (lookup-insert_endpoints e i.endpoints m)
    ∙ sym (last_info-append e i.endpoints (endpoints_of is) (lookup e m))

-- What `get_pipe_info` is to answer for a configuration.
abbrev pub info_or_error : ℕ → ConfigDescriptor → Result EndpointInfo
info_or_error e c = found_or_not e (last_info e (endpoints_of c.interfaces) none)

module _ {W : Type 0} (k : Kernel W) where
  -- The file descriptor `fd` is that of a device that is there and serves `c` as its configuration 0.
  pub record ServesConfig (P : W → Type 0) (fd : ℕ) (c : ConfigDescriptor) : Type 0 where
    pub serves : Serves k P fd 0x0200 0 (Encode.encode c)
    pub exact : c.total_length ≡ length (Encode.encode c)
    pub fits : c.total_length < 65536

  pub refresh-ServesConfig :
      (P : W → Type 0) (c : ConfigDescriptor) (s : Attached W)
      → ServesConfig P s.device.fd c
      → P s.world
      → let (r, s') = refresh_endpoint_cache k s in
        (r ≡ ok tt)
        × P s'.world
        × (s'.device ≡ record { fd = s.device.fd; endpoint_cache = cache_from c.interfaces [] })
  unfolding refresh_endpoint_cache
  refresh-ServesConfig P c s h p =
      let (r, q, same) =
        read_config_descriptor-Serves k P c 0 s h.serves p h.exact h.fits (omega arith) in
      rw (and_then_ok (read_config_descriptor_impl k 0 s) _ c r)
        (refl, q, ap (λ d. record { fd = d.fd; endpoint_cache = cache_from c.interfaces [] }) same)

  -- The cache is empty, as after a failed refresh, or holds the endpoints of `c`.
  abbrev pub CacheOf : ConfigDescriptor → List (ℕ × EndpointInfo) → Type 0
  CacheOf c cache = (cache ≡ []) ⊎ (cache ≡ cache_from c.interfaces [])

  pub get_pipe_info-hit :
      (e : ℕ) (info : EndpointInfo) (s : Attached W)
      → lookup e s.device.endpoint_cache ≡ some info
      → get_pipe_info k e s ≡ (ok info, s)
  unfolding get_pipe_info
  get_pipe_info-hit e info s h = ap (λ o. hit_or_refresh k e o s) h

  get_pipe_info-miss :
      (P : W → Type 0) (c : ConfigDescriptor) (e : ℕ) (s : Attached W)
      → ServesConfig P s.device.fd c
      → P s.world
      → lookup e s.device.endpoint_cache ≡ none
      → let (r, s') = get_pipe_info k e s in
        (r ≡ info_or_error e c)
        × P s'.world
        × (s'.device.fd ≡ s.device.fd)
        × CacheOf c s'.device.endpoint_cache
  unfolding get_pipe_info
  get_pipe_info-miss P c e s h p miss =
      let (r, q, d) = refresh-ServesConfig P c s h p in
      let found : lookup e (cache_from c.interfaces [])
          ≡ last_info e (endpoints_of c.interfaces) none =
        lookup-cache_from e c.interfaces [] in
      let cache : (refresh_endpoint_cache k s).1.device.endpoint_cache
          ≡ cache_from c.interfaces [] =
        ap (λ x. x.endpoint_cache) d in
      let step =
        ap (λ o. hit_or_refresh k e o s) miss ∙ and_then_ok (refresh_endpoint_cache k s) _ tt r in
      rw step (ap (found_or_not e) (ap (lookup e) cache ∙ found), q, ap (λ x. x.fd) d, inr cache)

  -- On a device that is there and serves a configuration, with a cache that is empty or holds the
  -- endpoints of that configuration, `get_pipe_info` answers with the last endpoint descriptor of the
  -- configuration that has the address, in whatever alternate setting it is, and with an error
  -- exactly if there is none; and what was assumed of the device and the cache holds afterwards.
  pub get_pipe_info_lem :
      (P : W → Type 0) (c : ConfigDescriptor) (e : ℕ) (s : Attached W)
      → ServesConfig P s.device.fd c
      → P s.world
      → CacheOf c s.device.endpoint_cache
      → let (r, s') = get_pipe_info k e s in
        (r ≡ info_or_error e c)
        × P s'.world
        × (s'.device.fd ≡ s.device.fd)
        × CacheOf c s'.device.endpoint_cache
  get_pipe_info_lem P c e s h p (inl empty) = get_pipe_info-miss P c e s h p (ap (lookup e) empty)
  get_pipe_info_lem P c e s h p (inr warm) =
      elim (Option-cases (lookup e s.device.endpoint_cache)) [
        | inl miss ↦ get_pipe_info-miss P c e s h p miss
        | inr (info, hit) ↦
            let found : some info ≡ last_info e (endpoints_of c.interfaces) none =
              sym hit ∙ ap (lookup e) warm ∙ lookup-cache_from e c.interfaces [] in
            rw (get_pipe_info-hit e info s hit) (ap (found_or_not e) found, p, refl, inr warm)
      ]

  -- On a device that is there and serves a configuration, where the kernel accepts the interface's
  -- new alternate setting: whatever that setting is, the cache then holds the same endpoints, those of
  -- all alternate settings together, and `get_pipe_info` answers the same.
  pub set_alternate_setting_ignores_alt :
      (P : W → Type 0) (c : ConfigDescriptor) (interface alt e : ℕ) (s : Attached W)
      → ServesConfig P s.device.fd c
      → (let (n, w) =
            ioctl_set_interface k s.device.fd
              (record { interface = interface; altsetting = alt })
              s.world in
          (m : ℕ) × (n ≡ done m) × P w)
      → let (r, s') = set_alternate_setting k interface alt s in
        (r ≡ ok tt)
        × (s'.device.endpoint_cache ≡ cache_from c.interfaces [])
        × ((get_pipe_info k e s').0 ≡ info_or_error e c)
  unfolding set_alternate_setting
  set_alternate_setting_ignores_alt P c interface alt e s h accepts =
      let (m, accepted, p) = accepts in
      let w =
        (ioctl_set_interface k s.device.fd (record { interface = interface; altsetting = alt })
          s.world).1 in
      let mid : Attached W = record s { world = w } in
      let (r, q, d) = refresh-ServesConfig P c mid h p in
      let step =
        and_then_ok
          (
            map_errno
                (ioctl_set_interface k s.device.fd
                  (record { interface = interface; altsetting = alt }) s.world).0,
            mid,
          )
          (λ _ s'. best_effort (refresh_endpoint_cache k s')) m (ap map_errno accepted)
        ∙ best_effort_ok (refresh_endpoint_cache k mid) r in
      let cache = ap (λ x. x.endpoint_cache) d in
      let same : (refresh_endpoint_cache k mid).1.device.fd ≡ s.device.fd = ap (λ x. x.fd) d in
      let (answer, _, _, _) =
        get_pipe_info_lem P c e (refresh_endpoint_cache k mid).1 (rw same h) q (inr cache) in
      rw step (refl, cache, answer)
