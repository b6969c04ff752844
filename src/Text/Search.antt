-- ===== src/Text/Search.antt =====
-- Methods of Rust's `str` on a text: `strip_prefix`, `split`, `splitn`, `trim`, `find` and `get`.
use rust_usb.Base.{
  length, ◌<◌, ℕ, zero, suc, ◌+◌, ◌-◌, ◌≡◌, refl, ap, List, [], ◌∷◌, ◌++◌, Option, none, some, ◌==◌,
  leb, ltb, ◌&&◌, ◌||◌, if◌then◌else◌, Bool, true, false, All, arith, ◌∙◌,
}
use rust_usb.Text.{Text}

unfoldable pub strip_prefix : Text → Text → Option Text
strip_prefix [] t = some t
strip_prefix (p ∷ ps) [] = none
strip_prefix (p ∷ ps) (c ∷ cs) = let rest = strip_prefix ps cs in if p == c then rest else none

abbrev pub add_front : ℕ → List Text → List Text
add_front c [] = (c ∷ []) ∷ []
add_front c (part ∷ parts) = (c ∷ part) ∷ parts

-- `split(char)`
unfoldable pub split : ℕ → Text → List Text
split sep [] = [] ∷ []
split sep (c ∷ cs) = let rest = split sep cs in if c == sep then [] ∷ rest else add_front c rest

-- `splitn(2, char)`: the first piece, and what follows the separator if there is one.
unfoldable pub split_two : ℕ → Text → Text × Option Text
split_two sep [] = ([], none)
split_two sep (c ∷ cs) =
    let (first, rest) = split_two sep cs in if c == sep then ([], some cs) else (c ∷ first, rest)

-- `char::is_whitespace`
unfoldable pub is_whitespace : ℕ → Bool
is_whitespace c =
    (leb 9 c && leb c 13)
    || (c == 0x20
        || (c == 0x85
            || (c == 0xA0
                || (c == 0x1680
                    || ((leb 0x2000 c && leb c 0x200A)
                        || (c == 0x2028
                            || (c == 0x2029 || (c == 0x202F || (c == 0x205F || c == 0x3000)))))))))

unfoldable pub trim_start : Text → Text
trim_start [] = []
trim_start (c ∷ cs) = let rest = trim_start cs in if is_whitespace c then rest else c ∷ cs

abbrev pub cons_unless_blank : ℕ → Text → Text
cons_unless_blank c [] = if is_whitespace c then [] else c ∷ []
cons_unless_blank c (d ∷ ds) = c ∷ d ∷ ds

unfoldable pub trim_end : Text → Text
trim_end [] = []
trim_end (c ∷ cs) = cons_unless_blank c (trim_end cs)

unfoldable pub trim : Text → Text
unfolding trim_start trim_end
trim t = trim_end (trim_start t)

-- The bytes of a character in UTF-8.
unfoldable pub len_utf8 : ℕ → ℕ
len_utf8 c =
    if ltb c 0x80 then 1 else (if ltb c 0x800 then 2 else (if ltb c 0x1_0000 then 3 else 4))

-- `find(&str)`: the offset, in bytes, of the first occurrence.
unfoldable pub find : Text → Text → Option ℕ
unfolding strip_prefix len_utf8
find pattern [] = elim (strip_prefix pattern []) [ some rest ↦ some 0 | none ↦ none ]
find pattern (c ∷ cs) =
    let later = find pattern cs in
    elim (strip_prefix pattern (c ∷ cs)) [
      | some rest ↦ some 0
      | none ↦ elim later [ none ↦ none | some n ↦ some (len_utf8 c + n) ]
    ]

-- The text from byte `n` on, and the text up to byte `n`, where that is between two characters.
unfoldable pub skip_bytes : ℕ → Text → Option Text
unfolding len_utf8
skip_bytes zero t = some t
skip_bytes (suc n) [] = none
skip_bytes (suc n) (c ∷ cs) =
    let rest = skip_bytes (suc n - len_utf8 c) cs in if leb (len_utf8 c) (suc n) then rest else none

unfoldable pub take_bytes : ℕ → Text → Option Text
unfolding len_utf8
take_bytes zero t = some []
take_bytes (suc n) [] = none
take_bytes (suc n) (c ∷ cs) =
    let rest = take_bytes (suc n - len_utf8 c) cs in
    if leb (len_utf8 c) (suc n)
    then (elim rest [ none ↦ none | some front ↦ some (c ∷ front) ])
    else none

-- `get(from..to)`
unfoldable pub get : ℕ → ℕ → Text → Option Text
unfolding skip_bytes take_bytes
get from to t =
    if leb from to
    then (elim (skip_bytes from t) [ none ↦ none | some rest ↦ take_bytes (to - from) rest ])
    else none

-- The text has no character `c`.
abbrev pub Without : ℕ → Text → Type 0
Without c t = All (λ d. (d == c) ≡ false) t

abbrev pub Blank : Text → Type 0
Blank t = All (λ c. is_whitespace c ≡ true) t

abbrev pub Solid : Text → Type 0
Solid t = All (λ c. is_whitespace c ≡ false) t

pub split-part :
    (sep : ℕ) (t rest : Text) → Without sep t → split sep (t ++ (sep ∷ rest)) ≡ t ∷ split sep rest
unfolding split
split-part sep [] rest h = ground arith
split-part sep (c ∷ t) rest (first, h) = rw (first, split-part sep t rest h) refl

pub split-last : (sep : ℕ) (t : Text) → Without sep t → split sep t ≡ t ∷ []
unfolding split
split-last sep [] h = refl
split-last sep (c ∷ t) (first, h) = rw (first, split-last sep t h) refl

trim_end-Blank : (t : Text) → Blank t → trim_end t ≡ []
unfolding trim_end
trim_end-Blank [] h = refl
trim_end-Blank (c ∷ t) (first, h) = rw (trim_end-Blank t h, first) refl

trim_end-Solid : (t blank : Text) → Solid t → Blank blank → trim_end (t ++ blank) ≡ t
unfolding trim_end
trim_end-Solid [] blank s b = trim_end-Blank blank b
trim_end-Solid (c ∷ []) blank (first, s) b = rw (trim_end-Blank blank b, first) refl
trim_end-Solid (c ∷ d ∷ t) blank (first, s) b = rw (trim_end-Solid (d ∷ t) blank s b) refl

trim_start-Blank : (t : Text) → Blank t → trim_start t ≡ []
unfolding trim_start trim
trim_start-Blank [] h = refl
trim_start-Blank (c ∷ t) (first, h) = rw (first, trim_start-Blank t h) refl

-- A text without whitespace, with whitespace behind it.
pub trim-Solid : (t blank : Text) → Solid t → Blank blank → trim (t ++ blank) ≡ t
unfolding trim_start trim
trim-Solid [] blank s b = rw (trim_start-Blank blank b) (unfold trim_end in refl)
trim-Solid (c ∷ t) blank (first, s) b = rw first (trim_end-Solid (c ∷ t) blank (first, s) b)

-- The text is ASCII, and its characters are not `c`.
abbrev pub AsciiWithout : ℕ → Text → Type 0
AsciiWithout c t = All (λ d. (d < 128) × ((c == d) ≡ false)) t

abbrev pub plus : ℕ → Option ℕ → Option ℕ
plus n none = none
plus n (some m) = some (n + m)

plus-zero : (m : Option ℕ) → m ≡ plus 0 m
plus-zero none = refl
plus-zero (some m) = ap some (omega arith)

plus-plus : (n : ℕ) (m : Option ℕ) → plus 1 (plus n m) ≡ plus (suc n) m
plus-plus n none = refl
plus-plus n (some m) = ap some (omega arith)

find-next :
    (p c : ℕ) (ps cs : Text)
    → c < 128
    → (p == c) ≡ false
    → find (p ∷ ps) (c ∷ cs) ≡ plus 1 (find (p ∷ ps) cs)
unfolding find strip_prefix len_utf8
find-next p c ps cs ascii other = ground arith

-- Characters that cannot begin the pattern are passed over.
pub find-append :
    (p : ℕ) (ps t rest : Text)
    → AsciiWithout p t
    → find (p ∷ ps) (t ++ rest) ≡ plus (length t) (find (p ∷ ps) rest)
find-append p ps [] rest h = plus-zero (find (p ∷ ps) rest)
find-append p ps (c ∷ t) rest ((ascii, other), h) =
    find-next p c ps (t ++ rest) ascii other
    ∙ ap (plus 1) (find-append p ps t rest h)
    ∙ plus-plus (length t) (find (p ∷ ps) rest)

skip_bytes-next : (c n : ℕ) (cs : Text) → c < 128 → skip_bytes (suc n) (c ∷ cs) ≡ skip_bytes n cs
unfolding skip_bytes len_utf8
skip_bytes-next c n cs ascii =
    let one : len_utf8 c ≡ 1 = ground arith in
    let left : suc n - 1 ≡ n = omega arith in rw (skip_bytes, one, left) (ground arith)

pub skip_bytes-append :
    (t rest : Text) (n : ℕ)
    → All (λ d. d < 128) t
    → skip_bytes (length t + n) (t ++ rest) ≡ skip_bytes n rest
unfolding skip_bytes len_utf8
skip_bytes-append [] rest n h = ap (λ m. skip_bytes m rest) (omega arith)
skip_bytes-append (c ∷ t) rest n (ascii, h) =
    let size : suc (length t) + n ≡ suc (length t + n) = omega arith in
    ap (λ m. skip_bytes m (c ∷ (t ++ rest))) size
    ∙ skip_bytes-next c (length t + n) (t ++ rest) ascii
    ∙ skip_bytes-append t rest n h

pub take_bytes-append :
    (t rest : Text) → All (λ d. d < 128) t → take_bytes (length t) (t ++ rest) ≡ some t
unfolding take_bytes len_utf8
take_bytes-append [] rest h = refl
take_bytes-append (c ∷ t) rest (ascii, h) = ground (arith, take_bytes-append t rest h)
