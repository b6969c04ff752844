-- ===== src/MacOs/Path.antt =====
-- usb-lib/src/backend/macos.rs: the paths that enumeration makes and that opening parses.
use rust_usb.Base.{
  ℕ, ◌<◌, ◌≡◌, refl, sym, ap, ◌∙◌, List, [], ◌∷◌, ◌++◌, Option, none, some, false, if◌then◌else◌,
  list_beq, arith, append-nil, ◌==◌,
}
use rust_usb.Error.{Result, ok, err, other}
use rust_usb.Text.{Text}
use rust_usb.Text.Numbers.{
  parse_u8, display_u8, display_hex, hex_char, parse_u8-display_u8, display_u8-All, display_hex-All,
}
use rust_usb.Text.Search.{
  strip_prefix, split, split_two, trim, trim-Solid, is_whitespace, Without, Solid, split-part,
  split-last,
}

-- `"iokit:"`, and the keys `"bus"`, `"addr"`, `"vid"` and `"pid"`.
abbrev pub scheme : Text
scheme = 105 ∷ 111 ∷ 107 ∷ 105 ∷ 116 ∷ 58 ∷ []

abbrev bus_key : Text
bus_key = 98 ∷ 117 ∷ 115 ∷ []

abbrev addr_key : Text
addr_key = 97 ∷ 100 ∷ 100 ∷ 114 ∷ []

abbrev vid_key : Text
vid_key = 118 ∷ 105 ∷ 100 ∷ []

abbrev pid_key : Text
pid_key = 112 ∷ 105 ∷ 100 ∷ []

abbrev pub comma : ℕ
comma = 44

abbrev pub equals : ℕ
equals = 61

-- `format!("iokit:bus={bus_number},addr={device_address},vid={vendor_id:04x},pid={product_id:04x}")`
unfoldable pub device_path : ℕ → ℕ → ℕ → ℕ → Text
device_path bus addr vid pid =
    scheme
    ++ ((bus_key ++ (equals ∷ display_u8 bus))
        ++ (comma ∷ (addr_key ++ (equals ∷ display_u8 addr))
            ++ (comma ∷ (vid_key ++ (equals ∷ display_hex vid))
                ++ (comma ∷ (pid_key ++ (equals ∷ display_hex pid))))))

-- The variables `bus` and `addr` of the loop.
abbrev pub Found : Type 0
Found = Option ℕ × Option ℕ

abbrev or_empty : Option Text → Text
or_empty none = []
or_empty (some t) = t

unfoldable pub match_key : Text → Text → Found → Found
unfolding parse_u8
match_key key val (bus, addr) =
    if list_beq key bus_key
    then (parse_u8 val, addr)
    else (if list_beq key addr_key then (bus, parse_u8 val) else (bus, addr))

-- The body of the `for`.
unfoldable pub read_part : Text → Found → Found
unfolding split_two trim match_key
read_part part found =
    let (key, val) = split_two equals part in match_key (trim key) (trim (or_empty val)) found

unfoldable pub read_parts : List Text → Found → Found
unfolding read_part
read_parts [] found = found
read_parts (part ∷ parts) found = read_parts parts (read_part part found)

abbrev both_or_error : Text → Found → Result (ℕ × ℕ)
both_or_error path (none, addr) = err (other "invalid iokit path (missing bus): {}" path)
both_or_error path (some bus, none) = err (other "invalid iokit path (missing addr): {}" path)
both_or_error path (some bus, some addr) = ok (bus, addr)

abbrev or_path : Option Text → Text → Text
or_path none path = path
or_path (some rest) path = rest

unfoldable pub parse_iokit_path : Text → Result (ℕ × ℕ)
unfolding read_parts split strip_prefix
parse_iokit_path path =
    both_or_error path
      (read_parts (split comma (or_path (strip_prefix scheme path) path)) (none, none))

trim-number : (t : Text) → Solid t → trim t ≡ t
trim-number t solid = ap trim (sym (append-nil t)) ∙ trim-Solid t [] solid tt

decimal-Solid : (n : ℕ) → n < 256 → Solid (display_u8 n)
unfolding is_whitespace
decimal-Solid n small = display_u8-All (λ c. is_whitespace c ≡ false) (λ d h. ground arith) n small

module _ (found : Found) where
  read_part-bus :
      (n : ℕ) → n < 256 → read_part (bus_key ++ (equals ∷ display_u8 n)) found ≡ (some n, found.1)
  unfolding read_part split_two match_key
  read_part-bus n small =
      let key : trim bus_key ≡ bus_key =
        trim-number bus_key (unfold is_whitespace in (refl, (refl, (refl, tt)))) in
      rw (key, trim-number (display_u8 n) (decimal-Solid n small), parse_u8-display_u8 n small) refl

  read_part-addr :
      (n : ℕ) → n < 256 → read_part (addr_key ++ (equals ∷ display_u8 n)) found ≡ (found.0, some n)
  unfolding read_part split_two match_key
  read_part-addr n small =
      let key : trim addr_key ≡ addr_key =
        trim-number addr_key (unfold is_whitespace in (refl, (refl, (refl, (refl, tt))))) in
      rw (key, trim-number (display_u8 n) (decimal-Solid n small), parse_u8-display_u8 n small) refl

  read_part-vid : (t : Text) → read_part (vid_key ++ (equals ∷ t)) found ≡ found
  unfolding read_part split_two match_key
  read_part-vid t =
      let key : trim vid_key ≡ vid_key =
        trim-number vid_key (unfold is_whitespace in (refl, (refl, (refl, tt)))) in
      rw key refl

  read_part-pid : (t : Text) → read_part (pid_key ++ (equals ∷ t)) found ≡ found
  unfolding read_part split_two match_key
  read_part-pid t =
      let key : trim pid_key ≡ pid_key =
        trim-number pid_key (unfold is_whitespace in (refl, (refl, (refl, tt)))) in
      rw key refl

decimal-comma : (n : ℕ) → n < 256 → Without comma (display_u8 n)
decimal-comma n small = display_u8-All (λ c. (c == comma) ≡ false) (λ d h. ground arith) n small

hex-comma : (n : ℕ) → n < 65536 → Without comma (display_hex n)
unfolding hex_char
hex-comma n small = display_hex-All (λ c. (c == comma) ≡ false) (λ d h. ground arith) n small

-- The four parts of a path come apart again.
split-device_path :
    (bus addr vid pid : ℕ)
    → bus < 256
    → addr < 256
    → vid < 65536
    → pid < 65536
    → split comma (
        or_path (strip_prefix scheme (device_path bus addr vid pid)) (device_path bus addr vid pid))
      ≡ (bus_key ++ (equals ∷ display_u8 bus))
        ∷ (addr_key ++ (equals ∷ display_u8 addr))
        ∷ (vid_key ++ (equals ∷ display_hex vid))
        ∷ (pid_key ++ (equals ∷ display_hex pid))
        ∷ []
unfolding strip_prefix device_path
split-device_path bus addr vid pid b a v p =
    let part : Text → Text → Text = λ key value. key ++ (equals ∷ value) in
    let last = part pid_key (display_hex pid) in
    let third = part vid_key (display_hex vid) in
    let second = part addr_key (display_u8 addr) in
    let first = part bus_key (display_u8 bus) in
    split-part comma first (second ++ (comma ∷ (third ++ (comma ∷ last))))
      (refl, (refl, (refl, (refl, decimal-comma bus b))))
    ∙ ap (λ l. first ∷ l)
        (split-part comma second (third ++ (comma ∷ last))
            (refl, (refl, (refl, (refl, (refl, decimal-comma addr a)))))
          ∙ ap (λ l. second ∷ l)
              (split-part comma third last (refl, (refl, (refl, (refl, hex-comma vid v))))
                ∙ ap (λ l. third ∷ l)
                    (split-last comma last (refl, (refl, (refl, (refl, hex-comma pid p)))))))

-- Every path that enumeration makes of a device with 8-bit bus and address and 16-bit ids is parsed,
-- when the device is opened, into just that bus and that address.
pub parse_iokit_path-device_path :
    (bus addr vid pid : ℕ)
    → bus < 256
    → addr < 256
    → vid < 65536
    → pid < 65536
    → parse_iokit_path (device_path bus addr vid pid) ≡ ok (bus, addr)
unfolding parse_iokit_path read_parts
parse_iokit_path-device_path bus addr vid pid b a v p =
    rw
      (
        split-device_path bus addr vid pid b a v p,
        read_part-bus (none, none) bus b,
        read_part-addr (some bus, none) addr a,
        read_part-vid (some bus, some addr) (display_hex vid),
        read_part-pid (some bus, some addr) (display_hex pid),
      )
      refl
