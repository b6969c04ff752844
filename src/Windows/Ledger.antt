-- ===== src/Windows/Ledger.antt =====
-- Which WinUSB handles are live: claiming and releasing keep the device's handles exactly those that
-- are live.
use rust_usb.Base.{
  ℕ, zero, suc, ◌+◌, ◌≡◌, ◌⊎◌, inl, inr, refl, ◌∙◌, List, [], ◌∷◌, ◌++◌, none, some, arith, ◌==◌,
  not, if◌then◌else◌, Bool, true, false, ◌||◌, ◌&&◌, All, contains, IsDistinct, contains-append,
  push-IsDistinct, insert, nat_eq, Bool-cases,
}
use rust_usb.Error.{Result, ok}
use rust_usb.Windows.{Win-cases, done, failed, WinUsb, Attached, PipeInformation}
use rust_usb.Windows.Device.{
  find_handle, handles, evict, cache_pipes, build_endpoint_cache, hold, is_interface, not_found,
  search_interface,
}
use rust_usb.Windows.Entries.{
  held, numbers, handles-append, numbers-append, contains_number, find_handle-append,
}

-- What WinUSB documents of its interface handles: `live` are those that are open, and `Sound` says
-- that no handle was freed while it was not live.
pub record Ledger {W : Type 0} (api : WinUsb W) : Type 1 where
  pub live : W → ℕ → Bool
  pub Sound : W → Type 0
  pub get_done :
      (u i h : ℕ) (w : W) → (api.get_associated_interface u i w).0 ≡ done h → live w h ≡ false
  pub get_live :
      (u i h j : ℕ) (w : W)
      → (api.get_associated_interface u i w).0 ≡ done h
      → live (api.get_associated_interface u i w).1 j ≡ (live w j || h == j)
  pub get_failed :
      (u i c j : ℕ) (w : W)
      → (api.get_associated_interface u i w).0 ≡ failed c
      → live (api.get_associated_interface u i w).1 j ≡ live w j
  pub get_sound : (u i : ℕ) (w : W) → Sound w → Sound (api.get_associated_interface u i w).1
  pub free_live : (h j : ℕ) (w : W) → live (api.free h w) j ≡ (live w j && not (h == j))
  pub free_sound : (h : ℕ) (w : W) → live w h ≡ true → Sound w → Sound (api.free h w)
  pub close_live : (h j : ℕ) (w : W) → live (api.close_handle h w) j ≡ live w j
  pub close_sound : (h : ℕ) (w : W) → Sound w → Sound (api.close_handle h w)

-- Whether a cache entry has one of the handles.
abbrev pub Within : List ℕ → ℕ × ℕ → Type 0
Within hs (_, h) = contains h hs ≡ true

insert-Within :
    (hs : List ℕ) (e h : ℕ) (m : List (ℕ × ℕ))
    → contains h hs ≡ true
    → All (Within hs) m
    → All (Within hs) (insert e h m)
insert-Within hs e h [] c all = (c, tt)
insert-Within hs e h ((f, g) ∷ m) c (first, all) = elim (Bool-cases (f == e)) [
  | inl same ↦ rw same (c, all)
  | inr other ↦ rw other (first, insert-Within hs e h m c all)
]

grow-Within :
    (h : ℕ) (u : ℕ) (hs : List ℕ) (m : List (ℕ × ℕ))
    → All (Within (u ∷ hs)) m
    → All (Within (u ∷ (hs ++ (h ∷ [])))) m
grow-Within h u hs [] all = tt
grow-Within h u hs ((f, g) ∷ m) (first, all) =
    (ground (arith, contains-append g h hs), grow-Within h u hs m all)

pub evict-Within :
    (h : ℕ) (before after : List ℕ) (m : List (ℕ × ℕ))
    → ((j : ℕ) → contains j after ≡ (contains j before && not (h == j)))
    → All (Within before) m
    → All (Within after) (evict h m)
evict-Within h before after [] shrink all = tt
evict-Within h before after ((f, g) ∷ m) shrink (first, all) = elim (Bool-cases (g == h)) [
  | inl same ↦ rw same (evict-Within h before after m shrink all)
  | inr other ↦ rw other (ground (arith, shrink g), evict-Within h before after m shrink all)
]

module _ {W : Type 0} (api : WinUsb W) (ledger : Ledger api) where
  open ledger use {
    live, Sound, get_done, get_live, get_failed, get_sound, free_live, free_sound, close_live,
    close_sound,
  }

  -- A device holds exactly the live handles, each once, one for each claimed interface; its cache has
  -- no other, and no handle was freed twice.
  pub record Held (s : Attached W) : Type 0 where
    pub exact : (j : ℕ) → live s.world j ≡ contains j (held s.device)
    pub distinct : IsDistinct (held s.device)
    pub one_each : IsDistinct (numbers s.device.assoc_handles)
    pub cached : All (Within (held s.device)) s.device.endpoint_cache
    pub sound : Sound s.world

  cache_pipes-failed :
      (h code : ℕ) (w : W) (idx left : ℕ) (m : List (ℕ × ℕ))
      → api.query_pipe h idx w ≡ failed code
      → cache_pipes api h w idx (suc left) m ≡ m
  unfolding cache_pipes
  cache_pipes-failed h code w idx left m e = rw (cache_pipes, e) refl

  cache_pipes-done :
      (h : ℕ) (info : PipeInformation) (w : W) (idx left : ℕ) (m : List (ℕ × ℕ))
      → api.query_pipe h idx w ≡ done info
      → cache_pipes api h w idx (suc left) m
        ≡ cache_pipes api h w (idx + 1) left (insert info.pipe_id h m)
  unfolding cache_pipes
  cache_pipes-done h info w idx left m e = rw (cache_pipes, e) refl

  pub cache_pipes-Within :
      (hs : List ℕ) (h : ℕ) (w : W) (idx left : ℕ) (m : List (ℕ × ℕ))
      → contains h hs ≡ true
      → All (Within hs) m
      → All (Within hs) (cache_pipes api h w idx left m)
  cache_pipes-Within hs h w idx zero m c all = unfold cache_pipes in all
  cache_pipes-Within hs h w idx (suc left) m c all = elim (Win-cases (api.query_pipe h idx w)) [
    | inl (code, e) ↦ rw (cache_pipes-failed h code w idx left m e) all
    | inr (info, e) ↦ rw (cache_pipes-done h info w idx left m e) (
        cache_pipes-Within hs h w (idx + 1) left (insert info.pipe_id h m) c
          (insert-Within hs info.pipe_id h m c all))
  ]

  hold-Held :
      (i h : ℕ) (s : Attached W) (w : W)
      → Held s
      → find_handle i s.device.assoc_handles ≡ none
      → live s.world h ≡ false
      → ((j : ℕ) → live w j ≡ (live s.world j || h == j))
      → Sound w
      → Held (hold api i h (record s { world = w }))
  unfolding hold build_endpoint_cache
  hold-Held i h s w x free fresh grown sound =
      let d = s.device in
      let size = handles-append i h d.assoc_handles in
      record {
        exact = λ j.
            rw size
              (ground (arith, grown j, x.exact j, contains-append j h (handles d.assoc_handles)));
        distinct = rw size (
            ground (
              arith,
              x.exact h,
              x.distinct,
              contains-append d.usb_handle h (handles d.assoc_handles),
              push-IsDistinct h (handles d.assoc_handles),
            ));
        one_each = rw (numbers-append i h d.assoc_handles) (
            push-IsDistinct i (numbers d.assoc_handles) (contains_number i d.assoc_handles free)
              x.one_each);
        cached = rw size (
            cache_pipes-Within (d.usb_handle ∷ (handles d.assoc_handles ++ (h ∷ []))) h w 0 32
              d.endpoint_cache (ground (arith, contains-append h h (handles d.assoc_handles)))
              (grow-Within h d.usb_handle (handles d.assoc_handles) d.endpoint_cache x.cached));
        sound = sound;
      }

  -- What a search leaves: a device in order, with the interface or without any change to the device.
  abbrev pub Claimed : ℕ → Attached W → Result (Unit {0}) × Attached W → Type 0
  Claimed i s (r, s') =
      Held s'
      × (s'.device.usb_handle ≡ s.device.usb_handle)
      × (((r ≡ ok tt) × (h : ℕ) × (find_handle i s'.device.assoc_handles ≡ some h))
          ⊎ ((r ≡ not_found api i) × (s'.device ≡ s.device)))

  -- One round of the search.
  search-failed :
      (i idx left code : ℕ) (s : Attached W)
      → (api.get_associated_interface s.device.usb_handle idx s.world).0 ≡ failed code
      → search_interface api i idx (suc left) s ≡ (
        not_found api i,
        record s { world = (api.get_associated_interface s.device.usb_handle idx s.world).1 },
      )
  unfolding search_interface
  search-failed i idx left code s e = rw (search_interface, e) refl

  search-done :
      (i idx left h : ℕ) (s : Attached W)
      → let call = api.get_associated_interface s.device.usb_handle idx s.world in
        call.0 ≡ done h
        → search_interface api i idx (suc left) s ≡ (
            if is_interface api i (api.query_interface_number h call.1)
            then (ok tt, hold api i h (record s { world = call.1 }))
            else search_interface api i (idx + 1) left (record s { world = api.free h call.1 }))
  unfolding search_interface
  search-done i idx left h s e = rw (search_interface, e) refl

  skip-Held :
      (h : ℕ) (s : Attached W) (w : W)
      → Held s
      → live s.world h ≡ false
      → ((j : ℕ) → live w j ≡ (live s.world j || h == j))
      → Sound w
      → Held (record s { world = api.free h w })
  skip-Held h s w x fresh grown sound = record {
    exact = λ j. ground (arith, free_live h j w, grown j, x.exact j);
    distinct = x.distinct;
    one_each = x.one_each;
    cached = x.cached;
    sound = free_sound h w (ground (arith, grown h)) sound;
  }

  pub search_interface-Held :
      (i idx left : ℕ) (s : Attached W)
      → Held s
      → find_handle i s.device.assoc_handles ≡ none
      → Claimed i s (search_interface api i idx left s)
  unfolding hold build_endpoint_cache
  search_interface-Held i idx zero s x free = unfold search_interface in (x, refl, inr (refl, refl))
  search_interface-Held i idx (suc left) s x free =
      let d = s.device in
      let call = api.get_associated_interface d.usb_handle idx s.world in
      elim (Win-cases call.0) [
        | inl (code, e) ↦ rw (search-failed i idx left code s e) (
          record {
            exact = λ j. get_failed d.usb_handle idx code j s.world e ∙ x.exact j;
            distinct = x.distinct;
            one_each = x.one_each;
            cached = x.cached;
            sound = get_sound d.usb_handle idx s.world x.sound;
          },
          refl,
          inr (refl, refl),
        )
        | inr (h, e) ↦
            let fresh = get_done d.usb_handle idx h s.world e in
            let grown = λ (j : ℕ). get_live d.usb_handle idx h j s.world e in
            let sound = get_sound d.usb_handle idx s.world x.sound in
            elim (Bool-cases (is_interface api i (api.query_interface_number h call.1))) [
              | inl this ↦
                  rw (search-done i idx left h s e, this)
                    (
                      hold-Held i h s call.1 x free fresh grown sound,
                      refl,
                      inl (refl, h, find_handle-append i h d.assoc_handles free),
                    )
              | inr another ↦
                  rw (search-done i idx left h s e, another)
                    (search_interface-Held i (idx + 1) left (record s { world = api.free h call.1 })
                      (skip-Held h s call.1 x fresh grown sound) free)
            ]
      ]
