-- ===== src/Windows/HardwareId.antt =====
-- usb-lib/src/backend/windows.rs: the ids of a device, from its hardware id.
use rust_usb.Base.{
  ℕ, ◌+◌, ◌<◌, ◌≡◌, refl, ap, ◌∙◌, [], ◌∷◌, ◌++◌, Option, none, some, arith, All, false, ◌==◌,
}
use rust_usb.Text.{Text}
use rust_usb.Text.Numbers.{
  from_str_radix, display_capital_hex, hex_capital, from_str_radix-display_capital_hex,
  display_capital_hex-All,
}
use rust_usb.Text.Search.{
  find, get, len_utf8, AsciiWithout, plus, find-append, skip_bytes-append, take_bytes-append,
}

-- `"VID_"` and `"PID_"`
abbrev pub vid_mark : Text
vid_mark = 86 ∷ 73 ∷ 68 ∷ 95 ∷ []

abbrev pub pid_mark : Text
pid_mark = 80 ∷ 73 ∷ 68 ∷ 95 ∷ []

infixl 5 ◌then_some◌
-- `?` on an Option
abbrev ◌then_some◌ : {A B : Type 0} → Option A → (A → Option B) → Option B
none then_some f = none
some a then_some f = f a

unfoldable pub parse_vid_pid : Text → Option (ℕ × ℕ)
unfolding find get from_str_radix
parse_vid_pid hw_id = find vid_mark hw_id then_some λ vid_pos.
    find pid_mark hw_id then_some λ pid_pos.
    get (vid_pos + 4) (vid_pos + 8) hw_id then_some λ vid_str.
    get (pid_pos + 4) (pid_pos + 8) hw_id then_some λ pid_str.
    from_str_radix 16 65535 vid_str then_some λ vid.
    from_str_radix 16 65535 pid_str then_some λ pid. some (vid, pid)

-- `"USB\VID_xxxx&PID_xxxx"`, as Windows makes it, with what it adds behind.
abbrev pub hardware_id : ℕ → ℕ → Text → Text
hardware_id vid pid rest =
    (85 ∷ 83 ∷ 66 ∷ 92 ∷ [])
    ++ (vid_mark
        ++ (display_capital_hex vid ++ (38 ∷ (pid_mark ++ (display_capital_hex pid ++ rest)))))

capital-Ascii : (d : ℕ) → d < 16 → (hex_capital d < 128) × ((80 == hex_capital d) ≡ false)
unfolding hex_capital
capital-Ascii d h = (ground arith, ground arith)

pass_digits : (n : ℕ) → n < 65536 → AsciiWithout 80 (display_capital_hex n)
pass_digits n small =
    display_capital_hex-All (λ c. (c < 128) × ((80 == c) ≡ false)) capital-Ascii n small

all_ascii : (n : ℕ) → n < 65536 → All (λ c. c < 128) (display_capital_hex n)
all_ascii n small = display_capital_hex-All (λ c. c < 128) (λ d h. (capital-Ascii d h).0) n small

parse-marks :
    (t vid_str pid_str : Text) (vid_pos pid_pos vid pid : ℕ)
    → find vid_mark t ≡ some vid_pos
    → find pid_mark t ≡ some pid_pos
    → get (vid_pos + 4) (vid_pos + 8) t ≡ some vid_str
    → get (pid_pos + 4) (pid_pos + 8) t ≡ some pid_str
    → from_str_radix 16 65535 vid_str ≡ some vid
    → from_str_radix 16 65535 pid_str ≡ some pid
    → parse_vid_pid t ≡ some (vid, pid)
unfolding parse_vid_pid
parse-marks t vid_str pid_str vid_pos pid_pos vid pid a b c d e f = rw (a, b, c, d, e, f) refl

abbrev front : Text
front = 85 ∷ 83 ∷ 66 ∷ 92 ∷ vid_mark

front_ascii : AsciiWithout 80 front
front_ascii = (
  (omega arith, refl),
  (
    (omega arith, refl),
    (
      (omega arith, refl),
      (
        (omega arith, refl),
        (
          (omega arith, refl),
          ((omega arith, refl), ((omega arith, refl), ((omega arith, refl), tt))),
        ),
      ),
    ),
  ),
)

-- A hardware id gives back the ids that it was made of, whatever stands behind them.
pub parse_vid_pid-hardware_id :
    (vid pid : ℕ) (rest : Text)
    → vid < 65536
    → pid < 65536
    → parse_vid_pid (hardware_id vid pid rest) ≡ some (vid, pid)
unfolding find get display_capital_hex
parse_vid_pid-hardware_id vid pid rest v p =
    let behind = 38 ∷ (pid_mark ++ (display_capital_hex pid ++ rest)) in
    let here : find pid_mark behind ≡ some 1 = unfold len_utf8 in refl in
    let at_vid : find vid_mark (hardware_id vid pid rest) ≡ some 4 = refl in
    let at_pid : find pid_mark (hardware_id vid pid rest) ≡ some 13 =
      find-append 80 (73 ∷ 68 ∷ 95 ∷ []) front (display_capital_hex vid ++ behind) front_ascii
      ∙ ap (plus 8) (
          find-append 80 (73 ∷ 68 ∷ 95 ∷ []) (display_capital_hex vid) behind (pass_digits vid v)
          ∙ ap (plus 4) here) in
    let vid_str : get 8 12 (hardware_id vid pid rest) ≡ some (display_capital_hex vid) =
      take_bytes-append (display_capital_hex vid) behind (all_ascii vid v) in
    let pid_str : get 17 21 (hardware_id vid pid rest) ≡ some (display_capital_hex pid) =
      rw (skip_bytes-append (display_capital_hex vid) behind 5 (all_ascii vid v))
        (take_bytes-append (display_capital_hex pid) rest (all_ascii pid p)) in
    parse-marks (hardware_id vid pid rest) (display_capital_hex vid) (display_capital_hex pid) 4 13
      vid pid at_vid at_pid vid_str pid_str (from_str_radix-display_capital_hex vid v)
      (from_str_radix-display_capital_hex pid p)
