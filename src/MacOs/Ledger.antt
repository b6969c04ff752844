-- ===== src/MacOs/Ledger.antt =====
-- The references to IOKit objects: how the calls of IOKit change them, up to an open interface.
use native.Mathlib.Decide.{ℕ_discrete}
use rust_usb.Base.{
  one_if, one_if-unlike, ℕ, ◌+◌, ◌-◌, ◌≡◌, ◌≢◌, ◌⊎◌, inl, inr, List, some, none, ◌==◌, ◌&&◌, not,
  if◌then◌else◌, arith,
}
use rust_usb.Error.{UsbError, Result, ok, err, panic, no_fuel}
use rust_usb.Backend.{Op}
use rust_usb.MacOs.Iokit.{Iokit, Attached}
use rust_usb.MacOs.Interfaces.{
  Found, close_and_release_interface, open_queried, query_plugin, open_service_interface,
}

-- What the program can hold: a reference to an object of the registry, to a plugin, to the interface of
-- a device or of a USB interface, and either of those open.
pub data Thing : Type 0 where
  object plugin device opened_device interface opened : ℕ → Thing

unfoldable pub Thing-discrete : Discrete Thing
Thing-discrete = hlevel ℕ_discrete

-- 1 for the thing itself, 0 for any other.
abbrev pub same : Thing → Thing → ℕ
same = one_if Thing-discrete

same-cases : (a b : Thing) → (a ≡ b) ⊎ (same a b ≡ 0)
same-cases a b = elim (Thing-discrete a b) [
  | yes p ↦ inl p
  | no p ↦ inr (one_if-unlike Thing-discrete a b p)
]

-- What a call gives that returns this IOReturn and this pointer: nothing if it fails or the pointer is null.
abbrev pub gained : ℕ → ℕ → Thing → Thing → ℕ
gained kr out a b = if kr == 0 && not (out == 0) then same a b else 0

-- What IOKit documents: `refs` counts the references, a release takes one away, and an interface that
-- was just queried is not open.
pub record Ledger {W : Type 0} (iokit : Iokit W) : Type 0 where
  pub refs : W → Thing → ℕ
  pub next :
      (s : ℕ) (w : W) (o : Thing) → refs (iokit.next_object s w) o ≡ refs w o + same (object s) o
  pub object_released :
      (h : ℕ) (w : W) (o : Thing) → refs (iokit.release_object h w) o ≡ refs w o - same (object h) o
  pub iterator_made :
      (d : ℕ) (w : W) (o : Thing)
      → let (kr, iter, _, w') = iokit.create_interface_iterator d w in
        refs w' o ≡ refs w o + gained kr iter (object iter) o
  pub plugin_made :
      (s : ℕ) (w : W) (o : Thing)
      → let (kr, p, w') = iokit.create_interface_plugin s w in
        refs w' o ≡ refs w o + gained kr p (plugin p) o
  pub device_plugin_made :
      (s : ℕ) (w : W) (o : Thing)
      → let (kr, p, w') = iokit.create_device_plugin s w in
        refs w' o ≡ refs w o + gained kr p (plugin p) o
  pub interface_queried :
      (p : ℕ) (w : W) (o : Thing)
      → let (kr, i, w') = iokit.query_interface p w in
        refs w' o ≡ refs w o + gained kr i (interface i) o
  pub interface_fresh :
      (p : ℕ) (w : W)
      → let (kr, i, w') = iokit.query_interface p w in kr ≡ 0 → refs w' (opened i) ≡ 0
  pub device_queried :
      (p : ℕ) (w : W) (o : Thing)
      → let (kr, d, w') = iokit.query_device p w in refs w' o ≡ refs w o + gained kr d (device d) o
  pub plugin_released :
      (p : ℕ) (w : W) (o : Thing) → refs (iokit.release_plugin p w) o ≡ refs w o - same (plugin p) o
  pub interface_opened :
      (i : ℕ) (w : W) (o : Thing)
      → let (kr, w') = iokit.usb_interface_open i w in
        refs w' o ≡ refs w o + (if kr == 0 then same (opened i) o else 0)
  pub interface_closed :
      (i : ℕ) (w : W) (o : Thing)
      → refs (iokit.usb_interface_close i w) o ≡ refs w o - same (opened i) o
  pub interface_released :
      (i : ℕ) (w : W) (o : Thing)
      → refs (iokit.release_interface i w) o ≡ refs w o - same (interface i) o
  pub device_opened :
      (d : ℕ) (w : W) (o : Thing)
      → let (kr, w') = iokit.usb_device_open d w in
        refs w' o ≡ refs w o + (if kr == 0 then same (opened_device d) o else 0)
  pub device_closed :
      (d : ℕ) (w : W) (o : Thing)
      → refs (iokit.usb_device_close d w) o ≡ refs w o - same (opened_device d) o
  pub device_released :
      (d : ℕ) (w : W) (o : Thing) → refs (iokit.release_device d w) o ≡ refs w o - same (device d) o
  pub pipe_read :
      (i p n : ℕ) (buf : List ℕ) (w : W) (o : Thing)
      → refs (iokit.read_pipe i p buf n w).3 o ≡ refs w o
  pub pipe_written :
      (i p n : ℕ) (buf : List ℕ) (w : W) (o : Thing)
      → refs (iokit.write_pipe i p buf n w).1 o ≡ refs w o
  pub alternate_set :
      (i a : ℕ) (w : W) (o : Thing) → refs (iokit.set_alternate_interface i a w).1 o ≡ refs w o

-- The two references that an open interface is.
abbrev pub open_interface : ℕ → Thing → ℕ
open_interface intf o = same (interface intf) o + same (opened intf) o

-- What is owed of the iterator and of an interface after a look at it.
abbrev pub owed : ℕ → Result Found → Thing → ℕ
owed iter (ok (some intf)) o = open_interface intf o
owed iter (ok none) o = same (object iter) o
owed iter (err e) o = 0
owed iter panic o = 0
owed iter no_fuel o = 0

abbrev pub of_opened : Result ℕ → Thing → ℕ
of_opened (ok intf) o = open_interface intf o
of_opened (err e) o = 0
of_opened panic o = 0
of_opened no_fuel o = 0

-- The same, where the iterator goes on after a success.
abbrev pub with_iter : ℕ → Result ℕ → Thing → ℕ
with_iter iter (ok intf) o = open_interface intf o + same (object iter) o
with_iter iter (err e) o = 0
with_iter iter panic o = 0
with_iter iter no_fuel o = 0

module _ {W : Type 0} (iokit : Iokit W) where
  pub open_service_interface-nonnull :
      (null_plugin : UsbError) (iter service : ℕ) (w : W)
      → (open_service_interface iokit null_plugin iter service w).0 ≢ ok 0
  unfolding open_service_interface query_plugin open_queried
  open_service_interface-nonnull null_plugin iter service w = ground arith

module _ {W : Type 0} (iokit : Iokit W) (ledger : Ledger iokit) where
  open ledger use {
    refs, next, object_released, iterator_made, plugin_made, interface_queried, interface_fresh,
    plugin_released, interface_opened, interface_closed, interface_released,
  }

  pub closed_and_released :
      (intf base : ℕ) (w : W) (o : Thing)
      → intf ≢ 0
      → refs w o ≡ base + open_interface intf o
      → refs (close_and_release_interface iokit intf w) o ≡ base
  unfolding close_and_release_interface
  closed_and_released intf base w o h e = ground (
    arith,
    interface_released intf (iokit.usb_interface_close intf w) o,
    interface_closed intf w o,
  )

  closed_unopened :
      (intf : ℕ) (w : W) (o : Thing)
      → refs w (opened intf) ≡ 0
      → refs w o - same (opened intf) o ≡ refs w o
  closed_unopened intf w o unopened = elim (same-cases (opened intf) o) [
    | inl itself ↦ rw (← itself, unopened) (omega arith)
    | inr other ↦ omega (arith, other)
  ]

  -- Closing an interface that was not opened changes nothing.
  released_unopened :
      (intf base : ℕ) (w : W) (o : Thing)
      → intf ≢ 0
      → refs w (opened intf) ≡ 0
      → refs w o ≡ base + same (interface intf) o
      → refs (close_and_release_interface iokit intf w) o ≡ base
  unfolding close_and_release_interface
  released_unopened intf base w o h unopened e = ground (
    arith,
    interface_released intf (iokit.usb_interface_close intf w) o,
    interface_closed intf w o,
    closed_unopened intf w o unopened,
  )

  open_queried-refs :
      (iter intf base : ℕ) (w : W) (o : Thing)
      → intf ≢ 0
      → refs w (opened intf) ≡ 0
      → refs w o ≡ base + same (interface intf) o + same (object iter) o
      → let (r, w') = open_queried iokit iter intf w in refs w' o ≡ base + with_iter iter r o
  unfolding open_queried
  open_queried-refs iter intf base w o h unopened e =
      let call = iokit.usb_interface_open intf w in
      let closed = close_and_release_interface iokit intf call.1 in
      ground (
        arith,
        interface_opened intf w o,
        interface_opened intf w (opened intf),
        released_unopened intf (base + same (object iter) o) call.1 o,
        object_released iter closed o,
      )

  query_plugin-refs :
      (iter p base : ℕ) (w : W) (o : Thing)
      → refs w o ≡ base + same (plugin p) o + same (object iter) o
      → let (r, w') = query_plugin iokit iter p w in refs w' o ≡ base + with_iter iter r o
  unfolding query_plugin
  query_plugin-refs iter p base w o e =
      let call = iokit.query_interface p w in
      let w' = iokit.release_plugin p call.2 in
      ground (
        arith,
        interface_queried p w o,
        interface_fresh p w,
        plugin_released p call.2 o,
        plugin_released p call.2 (opened call.1),
        object_released iter w' o,
        open_queried-refs iter call.1 base w' o,
      )

  pub open_service_interface-refs :
      (null_plugin : UsbError) (iter service base : ℕ) (w : W) (o : Thing)
      → refs w o ≡ base + same (object service) o + same (object iter) o
      → let (r, w') = open_service_interface iokit null_plugin iter service w in
        refs w' o ≡ base + with_iter iter r o
  unfolding open_service_interface
  open_service_interface-refs null_plugin iter service base w o e =
      let call = iokit.create_interface_plugin service w in
      let w' = iokit.release_object service call.2 in
      ground (
        arith,
        plugin_made service w o,
        object_released service call.2 o,
        object_released iter w' o,
        query_plugin-refs iter call.1 base w' o,
      )

  -- A look at an open interface leaves what is owed of the iterator and of the interface.
  abbrev pub Balanced : (ℕ → ℕ → Op (Attached W) Found) → Type 0
  Balanced look =
      (iter intf base : ℕ) (s : Attached W) (o : Thing)
      → intf ≢ 0
      → refs s.world o ≡ base + open_interface intf o + same (object iter) o
      → let (r, s') = look iter intf s in refs s'.world o ≡ base + owed iter r o
