-- ===== src/Hotplug/Contexts.antt =====
-- What the worker thread of macOS holds after its setup.
use native.Mathlib.Decide.{ℕ_discrete}
use rust_usb.Base.{
  one_if, ℕ, ◌+◌, ◌-◌, ◌≡◌, refl, ap, ◌∙◌, inl, inr, List, [], ◌∷◌, Option, none, some, ◌==◌,
  if◌then◌else◌, Bool, true, false, Bool-cases, arith,
}
use rust_usb.Hotplug.RunLoop.{
  destroy, release, free, Notifications, Thread, Running, free_context, drain_iterator_silent,
  watch, watch_removals, setup,
}

-- What the thread can hold of IOKit: a reference to an object, a port, or a matching dictionary.
pub data Resource : Type 0 where
  object port dictionary : ℕ → Resource

unfoldable pub Resource-discrete : Discrete Resource
Resource-discrete = hlevel ℕ_discrete

abbrev pub same : Resource → Resource → ℕ
same = one_if Resource-discrete

abbrev pub unless_null : ℕ → Resource → Resource → ℕ
unless_null h a b = if h == 0 then 0 else same a b

-- What IOKit documents: `refs` counts what is held, and a call on the notification uses up the
-- dictionary whether it succeeds or fails.
pub record Account {W : Type 0} (iokit : Notifications W) : Type 0 where
  pub refs : W → Resource → ℕ
  pub port_made :
      (w : W) (o : Resource)
      → let (p, w') = iokit.port_create w in refs w' o ≡ refs w o + unless_null p (port p) o
  pub port_gone :
      (p : ℕ) (w : W) (o : Resource) → refs (iokit.port_destroy p w) o ≡ refs w o - same (port p) o
  pub source_added : (s : ℕ) (w : W) (o : Resource) → refs (iokit.add_source s w) o ≡ refs w o
  pub matching_made :
      (w : W) (o : Resource)
      → let (d, w') = iokit.service_matching w in
        refs w' o ≡ refs w o + unless_null d (dictionary d) o
  pub watched :
      (p d : ℕ) (is_arrival : Bool) (w : W) (o : Resource)
      → let (kr, iter, _, w') = iokit.add_notification p is_arrival d w in
        refs w' o ≡ refs w o - same (dictionary d) o + (if kr == 0 then same (object iter) o else 0)
  pub next :
      (h : ℕ) (w : W) (o : Resource) → refs (iokit.next_object h w) o ≡ refs w o + same (object h) o
  pub released :
      (h : ℕ) (w : W) (o : Resource)
      → refs (iokit.release_object h w) o ≡ refs w o - same (object h) o

module _ {W : Type 0} (iokit : Notifications W) (account : Account iokit) where
  open account use {
    refs, port_made, port_gone, source_added, matching_made, watched, next, released,
  }

  abbrev pub held : Running → Resource → ℕ
  held r o = same (port r.port) o + same (object r.arrived_iter) o + same (object r.removed_iter) o

  drain-refs :
      (services : List ℕ) (w : W) (o : Resource)
      → refs (drain_iterator_silent iokit services w) o ≡ refs w o
  unfolding drain_iterator_silent
  drain-refs [] w o = refl
  drain-refs (s ∷ rest) w o = omega (
    arith,
    drain-refs rest (iokit.release_object s (iokit.next_object s w)) o,
    released s (iokit.next_object s w) o,
    next s w o,
  )

  -- After a registration: its iterator is held and its context allocated, or nothing is.
  abbrev Watched : Bool → Thread W → Resource → Option ℕ × Thread W → Type 0
  Watched b t o (none, t') =
      (refs t'.world o ≡ refs t.world o) × (t'.contexts ≡ t.contexts) × (t'.calls ≡ t.calls)
  Watched b t o (some iter, t') =
      (refs t'.world o ≡ refs t.world o + same (object iter) o)
      × (t'.contexts ≡ b ∷ t.contexts)
      × (t'.calls ≡ t.calls)

  free-own : (b : Bool) (cs : List Bool) → free_context b (b ∷ cs) ≡ cs
  unfolding free_context
  free-own true cs = refl
  free-own false cs = refl

  watch-Watched :
      (p : ℕ) (b : Bool) (t : Thread W) (o : Resource) → Watched b t o (watch iokit p b t)
  unfolding watch
  watch-Watched p b t o =
      let (dict, w) = iokit.service_matching t.world in
      let call = iokit.add_notification p b dict w in
      let made = matching_made t.world o in
      let used = watched p dict b w o in
      let freed = free-own b t.contexts in
      elim (Bool-cases (dict == 0)) [
        | inl null ↦ rw null (ground (arith, made), freed, refl)
        | inr there ↦ elim (Bool-cases (call.0 == 0)) [
          | inl success ↦
              rw (there, success)
                (ground (arith, made, used, drain-refs call.2 call.3 o), refl, refl)
          | inr failure ↦ rw (there, failure) (ground (arith, made, used), freed, refl)
        ]
      ]

  -- After the setup: all that the run loop needs is held, or nothing is.
  abbrev pub SetUp : Thread W → Resource → Option Running × Thread W → Type 0
  SetUp t o (none, t') =
      (refs t'.world o ≡ refs t.world o) × (t'.contexts ≡ t.contexts) × (t'.calls ≡ t.calls)
  SetUp t o (some r, t') =
      (refs t'.world o ≡ refs t.world o + held r o)
      × (t'.contexts ≡ false ∷ true ∷ t.contexts)
      × (t'.calls ≡ t.calls)

  watch_removals-SetUp :
      (p : ℕ) (t t1 : Thread W) (o : Resource) (x : Option ℕ × Thread W)
      → refs t1.world o ≡ refs t.world o + same (port p) o
      → t1.contexts ≡ t.contexts
      → t1.calls ≡ t.calls
      → Watched true t1 o x
      → SetUp t o (watch_removals iokit p x)
  unfolding watch_removals
  watch_removals-SetUp p t t1 o (none, t2) e c l (e', c', l') =
      (omega (arith, port_gone p t2.world o), c' ∙ c, l' ∙ l)
  watch_removals-SetUp p t t1 o (some iter, t2) e c l (e', c', l') =
      second (watch iokit p false t2) (watch-Watched p false t2 o)
    where
      second :
          (y : Option ℕ × Thread W)
          → Watched false t2 o y
          → SetUp t o (elim y.0 [
            | none ↦ (none, destroy iokit p (release iokit iter (free iokit true y.1)))
            | some removed ↦
                (some (record { port = p; arrived_iter = iter; removed_iter = removed }), y.1)
          ])
      second (none, t3) (e'', c'', l'') = (
        omega (
          arith,
          released iter t3.world o,
          port_gone p (iokit.release_object iter t3.world) o,
          e,
          e',
          e'',
        ),
        ap (λ cs. free_context true cs) (c'' ∙ c') ∙ (free-own true t1.contexts ∙ c),
        l'' ∙ (l' ∙ l),
      )
      second (some removed, t3) (e'', c'', l'') = (
        omega (arith, e, e', e''),
        c'' ∙ ap (λ cs. false ∷ cs) (c' ∙ ap (λ cs. true ∷ cs) c),
        l'' ∙ (l' ∙ l),
      )

  pub setup-SetUp : (t : Thread W) (o : Resource) → SetUp t o (setup iokit t)
  unfolding setup
  setup-SetUp t o =
      let (p, w) = iokit.port_create t.world in
      let source = iokit.run_loop_source p w in
      let attached : Thread W = record t { world = iokit.add_source source w } in
      let made = port_made t.world o in
      elim (Bool-cases (p == 0)) [
        | inl null ↦ rw null (ground (arith, made), refl, refl)
        | inr there ↦ elim (Bool-cases (source == 0)) [
          | inl nothing ↦ rw (there, nothing) (ground (arith, made, port_gone p w o), refl, refl)
          | inr found ↦
              rw (there, found)
                (watch_removals-SetUp p t attached o (watch iokit p true attached)
                  (ground (arith, made, source_added source w o)) refl refl
                  (watch-Watched p true attached o))
        ]
      ]
