-- ===== src/MacOs/Mapped.antt =====
-- The search for the interface of an endpoint leaves the endpoint's pipe in the cache.
use rust_usb.Base.{
  ==_iff, ℕ, zero, suc, ◌+◌, ◌<◌, ◌≡◌, refl, inl, inr, ◌∙◌, List, [], ◌∷◌, some, Option-cases, ◌==◌,
  if◌then◌else◌, Bool, true, false, Bool-cases, arith, All, lookup, insert, lookup-insert, nat_eq,
}
use rust_usb.Error.{UsbError, Result, ok, err}
use rust_usb.MacOs.Iokit.{Iokit, Attached}
use rust_usb.MacOs.Interfaces.{
  Found, with_pipes, address_of, extend, discover, pipes_of, endpoint_on,
  open_interface_for_endpoint,
}
use rust_usb.MacOs.Looks.{pipes_of-IsSettled}
use rust_usb.MacOs.Searches.{search_interfaces-Opens, Opens, Finds}

module _ {W : Type 0} (iokit : Iokit W) where
  -- In the world `w` the interface has the pipe, and the pipe has the endpoint's address.
  pub record IsPipe (intf : ℕ) (w : W) (endpoint pipe : ℕ) : Type 0 where
    pub properties : (iokit.get_pipe_properties intf pipe w).0 ≡ 0
    pub address : address_of (iokit.get_pipe_properties intf pipe w).1 ≡ endpoint
    pub numbered : 0 < pipe

  -- An entry of the cache for the endpoint is such a pipe.
  abbrev Entry : ℕ → W → ℕ → ℕ × ℕ → Type 0
  Entry intf w endpoint (key, pipe) = key ≡ endpoint → IsPipe intf w endpoint pipe

  insert-Entry :
      (intf : ℕ) (w : W) (endpoint key pipe : ℕ) (found : List (ℕ × ℕ))
      → Entry intf w endpoint (key, pipe)
      → All (Entry intf w endpoint) found
      → All (Entry intf w endpoint) (insert key pipe found)
  insert-Entry intf w endpoint key pipe [] p all = (p, tt)
  insert-Entry intf w endpoint key pipe ((e, q) ∷ found) p (first, all) =
      elim (Bool-cases (e == key)) [
        | inl same ↦ rw same (p, all)
        | inr unlike ↦ rw unlike (first, insert-Entry intf w endpoint key pipe found p all)
      ]

  discover-Entry :
      (intf : ℕ) (w : W) (endpoint pipe_ref left : ℕ) (found pipes : List (ℕ × ℕ))
      → 0 < pipe_ref
      → All (Entry intf w endpoint) found
      → discover iokit intf w pipe_ref left found ≡ ok pipes
      → All (Entry intf w endpoint) pipes
  unfolding discover
  discover-Entry intf w endpoint pipe_ref zero found pipes pos all e =
      let kept : found ≡ pipes = ground arith in rw (← kept) all
  discover-Entry intf w endpoint pipe_ref (suc left) found pipes pos all e =
      let call = iokit.get_pipe_properties intf pipe_ref w in
      elim (Bool-cases (call.0 == 0)) [
        | inl there ↦
            discover-Entry intf w endpoint (pipe_ref + 1) left
              (insert (address_of call.1) pipe_ref found) pipes (omega arith)
              (insert-Entry intf w endpoint (address_of call.1) pipe_ref found
                (λ same. record {
                  properties = (==_iff call.0 0).0 there;
                  address = same;
                  numbered = pos;
                })
                all)
              (ground arith)
        | inr failed ↦ absurd (ground arith)
      ]

  -- An entry of an endpoint that is cached already stays one, whatever is added.
  extend-kept :
      (P : ℕ → Type 0) (endpoint pipe : ℕ) (cache found : List (ℕ × ℕ))
      → lookup endpoint cache ≡ some pipe
      → P pipe
      → All (λ x. x.0 ≡ endpoint → P x.1) found
      → (q : ℕ) × (lookup endpoint (extend cache found) ≡ some q) × P q
  extend-kept P endpoint pipe cache [] e p all = (pipe, e, p)
  extend-kept P endpoint pipe cache ((k, v) ∷ found) e p (first, all) =
      elim (Bool-cases (k == endpoint)) [
        | inl same ↦
            extend-kept P endpoint v (insert k v cache) found
              (lookup-insert k endpoint v cache ∙ rw same refl) (first ((==_iff k endpoint).0 same))
              all
        | inr unlike ↦
            extend-kept P endpoint pipe (insert k v cache) found
              (lookup-insert k endpoint v cache ∙ rw unlike e) p all
      ]

  -- The cache has an entry for each endpoint that was discovered, and it is one of the discovered ones.
  extend-found :
      (P : ℕ → Type 0) (endpoint pipe : ℕ) (cache found : List (ℕ × ℕ))
      → lookup endpoint found ≡ some pipe
      → All (λ x. x.0 ≡ endpoint → P x.1) found
      → (q : ℕ) × (lookup endpoint (extend cache found) ≡ some q) × P q
  extend-found P endpoint pipe cache [] e all = absurd (ground arith)
  extend-found P endpoint pipe cache ((k, v) ∷ found) e (first, all) =
      elim (Bool-cases (k == endpoint)) [
        | inl same ↦
            extend-kept P endpoint v (insert k v cache) found
              (lookup-insert k endpoint v cache ∙ rw same refl) (first ((==_iff k endpoint).0 same))
              all
        | inr unlike ↦ extend-found P endpoint pipe (insert k v cache) found (rw unlike at e) all
      ]

  pipes_of-Entry :
      (intf : ℕ) (w : W) (endpoint : ℕ) (pipes : List (ℕ × ℕ))
      → pipes_of iokit intf w ≡ ok pipes
      → All (Entry intf w endpoint) pipes
  unfolding pipes_of
  pipes_of-Entry intf w endpoint pipes e =
      let call = iokit.get_num_endpoints intf w in
      elim (Bool-cases (call.0 == 0)) [
        | inl there ↦
            discover-Entry intf w endpoint 1 call.1 [] pipes (omega arith) tt (ground arith)
        | inr failed ↦ absurd (ground arith)
      ]

  -- What a search leaves that found the endpoint on an interface: the cache names the pipe, which the
  -- interface had when it was looked at, in the world before the iterator was released.
  pub record Mapped (endpoint intf : ℕ) (s : Attached W) (pipe : ℕ) : Type 0 where
    pub sound : s.device.poisoned ≡ false
    pub cached : lookup endpoint s.device.pipe_cache ≡ some pipe
    pub looked_at : W
    pub iterator : ℕ
    pub released : s.world ≡ iokit.release_object iterator looked_at
    pub is_pipe : IsPipe intf looked_at endpoint pipe

  -- A test that ends in an error when it holds.
  unless_error :
      (P : ℕ → Attached W → Type 0) (b : Bool) (e : UsbError) (t : Attached W)
      (x : Result Found × Attached W)
      → (b ≡ false → Finds P x)
      → Finds P (if b then (err e, t) else x)
  unless_error P true e t x h = tt
  unless_error P false e t x h = h refl

  endpoint_on-Mapped :
      (endpoint iter intf : ℕ) (s : Attached W)
      → Finds
          (λ i t. (pipe : ℕ) × Mapped endpoint i t pipe)
          (endpoint_on iokit endpoint iter intf s)
  unfolding endpoint_on
  endpoint_on-Mapped endpoint iter intf s = elim (pipes_of-IsSettled iokit intf s.world) [
    | inr (f, p) ↦ rw (endpoint_on, p) tt
    | inl (pipes, p) ↦
        let found : Attached W = record (with_pipes iokit pipes s) {
          world = iokit.release_object iter s.world;
        } in
        rw (endpoint_on, p)
          (unless_error _ s.device.poisoned _ _ _ λ sound.
            elim (Option-cases (lookup endpoint pipes)) [
              | inl nothing ↦ rw nothing tt
              | inr (pipe, there) ↦
                  let (q, cached, is_pipe) =
                    extend-found (λ x. IsPipe intf s.world endpoint x) endpoint pipe
                      s.device.pipe_cache pipes there
                      (pipes_of-Entry intf s.world endpoint pipes p) in
                  let mapped : Mapped endpoint intf found q = record {
                    sound = sound;
                    cached = cached;
                    looked_at = s.world;
                    iterator = iter;
                    released = refl;
                    is_pipe = is_pipe;
                  } in
                  rw there (q, mapped)
            ])
  ]

  pub open_interface_for_endpoint-Mapped :
      (endpoint : ℕ) (s : Attached W)
      → Opens
          (λ i t. (pipe : ℕ) × Mapped endpoint i t pipe)
          (open_interface_for_endpoint iokit endpoint s)
  unfolding open_interface_for_endpoint
  open_interface_for_endpoint-Mapped endpoint s =
      search_interfaces-Opens iokit (endpoint_on iokit endpoint)
        (λ i t. (pipe : ℕ) × Mapped endpoint i t pipe)
        (λ iter intf t _. endpoint_on-Mapped endpoint iter intf t) _ _ s
