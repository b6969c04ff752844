-- ===== src/Linux/Packets.antt =====
-- How an isochronous transfer is cut into packets.
use rust_usb.Base.{
  ℕ, zero, suc, ◌+◌, ◌-◌, ◌*◌, ◌/◌, ◌%◌, ◌≤◌, ◌<◌, ◌≡◌, sym, ◌∙◌, List, [], ◌∷◌, arith, length, All,
  max, min,
}
use native.Mathlib.Nat.{
  mul_comm, div-add-mod, mod-lt, le_of_mul-le-mul_left, lt_of_mul-lt-mul_left, le_trans,
  div-le_self,
}
use rust_usb.Linux.{UsbdevfsIsoPacketDesc}
use rust_usb.Linux.Isoch.{packet_count, frames, iso_urb, i32_max}

abbrev pub total : List UsbdevfsIsoPacketDesc → ℕ
total [] = 0
total (f ∷ fs) = f.length + total fs

-- The packets from the `i`-th on: the extra bytes that are left go one to each.
frames-total :
    (base rem i left : ℕ)
    → base ≤ 0x7fff_ffff
    → (length (frames base rem i left) ≡ left)
      × (total (frames base rem i left) ≡ base * left + min (rem - i) left)
unfolding frames
frames-total base rem i zero h = omega arith
frames-total base rem i (suc left) h =
    let (n, t) = frames-total base rem (suc i) left h in (omega (arith, n), ground (arith, t))

frames-bound :
    (base rem i left hint : ℕ)
    → base ≤ 0x7fff_ffff
    → (i < rem → base + 1 ≤ hint)
    → base ≤ hint
    → All (λ f. f.length ≤ hint) (frames base rem i left)
unfolding frames
frames-bound base rem i zero hint h extra low = tt
frames-bound base rem i (suc left) hint h extra low = (
  ground (arith, extra),
  frames-bound base rem (suc i) left hint h (λ l. extra (omega (arith, l))) low,
)

-- A rounded-up quotient, from what division by `hint` gives.
round_up :
    (len hint q r : ℕ)
    → 0 < len
    → hint * q + r ≡ len + hint - 1
    → r < hint
    → (0 < q) × (len ≤ q * hint) × ((q - 1) * hint < len)
round_up len hint zero r h e l = let none_yet : hint * 0 ≡ 0 = omega arith in absurd (omega arith)
round_up len hint (suc q) r h e l =
    let more : hint * suc q ≡ hint * q + hint = omega arith in
    let comm : suc q * hint ≡ hint * q + hint = omega arith in
    let comm' : q * hint ≡ hint * q = mul_comm q hint in
    let pred : suc q - 1 ≡ q = omega arith in (omega arith, omega arith, rw pred (omega arith))

packet_count_lem :
    (len hint : ℕ)
    → 0 < len
    → 0 < hint
    → let n = packet_count len hint in (0 < n) × (len ≤ n * hint) × ((n - 1) * hint < len)
unfolding packet_count
packet_count_lem len hint h pos =
    let q = (len + hint - 1) / hint in
    let (low, enough, least) =
      round_up len hint q ((len + hint - 1) % hint) h (div-add-mod (len + hint - 1) hint)
        (mod-lt (len + hint - 1) pos) in
    let same : max q 1 ≡ q = omega arith in rw same (low, enough, least)

split_evenly :
    (len n hint : ℕ)
    → 0 < n
    → len ≤ n * hint
    → (len / n ≤ hint) × (0 < len % n → len / n + 1 ≤ hint)
split_evenly len n hint pos h =
    let e : n * (len / n) + len % n ≡ len = div-add-mod len n in
    (
      le_of_mul-le-mul_left {k = n} (omega arith) pos,
      λ some_left.
          let strict : len / n < hint = lt_of_mul-lt-mul_left n (omega (arith, some_left)) in
          omega arith,
    )

-- The URB of a transfer of `len` bytes, for packets of at most `hint` bytes, has as many packets as
-- `number_of_packets` says and as few as can hold `len` bytes; each has at most `hint` bytes, and
-- together they have `len`.
pub iso_urb_lem :
    (endpoint len hint : ℕ)
    → 0 < len
    → len ≤ i32_max
    → 0 < hint
    → let n = packet_count len hint in
      let urb = iso_urb endpoint len n in
      (urb.number_of_packets ≡ length urb.iso_frame_desc)
      × (total urb.iso_frame_desc ≡ len)
      × All (λ f. f.length ≤ hint) urb.iso_frame_desc
      × (len ≤ urb.number_of_packets * hint)
      × ((urb.number_of_packets - 1) * hint < len)
unfolding iso_urb
iso_urb_lem endpoint len hint pos small h =
    let n = packet_count len hint in
    let base = len / n in
    let rem = len % n in
    let (low, enough, least) = packet_count_lem len hint pos h in
    let (even, extra) = split_evenly len n hint low enough in
    let e : n * base + rem ≡ len = div-add-mod len n in
    let bound : rem < n = mod-lt len low in
    let fits : base ≤ 0x7fff_ffff = le_trans (div-le_self len n) small in
    let (size, sum) = frames-total base rem 0 n fits in
    (
      sym size,
      sum ∙ omega (arith, mul_comm base n),
      frames-bound base rem 0 n hint fits (λ l. extra (omega (arith, l))) even,
      enough,
      least,
    )
