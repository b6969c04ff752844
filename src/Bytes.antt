-- ===== src/Bytes.antt =====
-- Byte buffers: `buf[i]`, `&buf[a..b]` and `from_le_bytes`, as the descriptor parsers use them. An
-- index or a slice that leaves the buffer panics.
use rust_usb.Base.{
  ℕ, zero, suc, ◌+◌, ◌-◌, ◌*◌, ◌<◌, ◌≡◌, refl, ap, List, [], ◌∷◌, ◌++◌, true, ◌&&◌, arith, length,
  get_or, take, drop, leb, le→leb, if◌then◌else◌, take-append_self, drop-append_self, length-append,
}
use rust_usb.Error.{Result, ok, panic}

abbrev pub IsByte : ℕ → Type 0
IsByte b = b < 256

unfoldable pub index : List ℕ → ℕ → Result ℕ
index [] i = panic
index (x ∷ xs) zero = ok x
index (x ∷ xs) (suc i) = index xs i

pub index-lt : (buf : List ℕ) (i : ℕ) → i < length buf → index buf i ≡ ok (get_or buf i 0)
unfolding index
index-lt [] i h = absurd (omega arith)
index-lt (x ∷ xs) zero h = refl
index-lt (x ∷ xs) (suc i) h = index-lt xs i (omega arith)

index_front :
    (area post : List ℕ) (i : ℕ) → i < length area → index (area ++ post) i ≡ ok (get_or area i 0)
unfolding index
index_front [] post i h = absurd (omega arith)
index_front (x ∷ area) post zero h = refl
index_front (x ∷ area) post (suc i) h = index_front area post i (omega arith)

-- `&buf[from..to]`
unfoldable pub slice : List ℕ → ℕ → ℕ → Result (List ℕ)
slice buf from to =
    if leb from to && leb to (length buf) then ok (take (to - from) (drop from buf)) else panic

abbrev pub u16_from_le_bytes : ℕ → ℕ → ℕ
u16_from_le_bytes lo hi = lo + 256 * hi

-- `chunks_exact(2).map(|c| u16::from_le_bytes([c[0], c[1]]))`: an odd byte at the end is dropped.
abbrev pub le_units : List ℕ → List ℕ
le_units [] = []
le_units (lo ∷ []) = []
le_units (lo ∷ hi ∷ bytes) = u16_from_le_bytes lo hi ∷ le_units bytes

abbrev pub u32_from_le_bytes : ℕ → ℕ → ℕ → ℕ → ℕ
u32_from_le_bytes a b c d = a + 256 * b + 65536 * c + 16777216 * d

-- Where the buffer is `pre ++ rest`, an index past `pre` reads `rest`.
pub index-append : (pre rest : List ℕ) (i : ℕ) → index (pre ++ rest) (length pre + i) ≡ index rest i
unfolding index
index-append [] rest i = ap (λ j. index rest j) (omega arith)
index-append (x ∷ pre) rest i =
    let e : suc (length pre) + i ≡ suc (length pre + i) = omega arith in
    rw e (index-append pre rest i)

pub slice-append :
    (pre mid rest : List ℕ)
    → slice (pre ++ (mid ++ rest)) (length pre) (length pre + length mid) ≡ ok mid
unfolding slice
slice-append pre mid rest =
    let size : length pre + length mid - length pre ≡ length mid = omega arith in
    let lo : leb (length pre) (length pre + length mid) ≡ true = le→leb _ _ (omega arith) in
    let hi : leb (length pre + length mid) (length (pre ++ (mid ++ rest))) ≡ true =
      le→leb _ _ (omega (arith, length-append pre (mid ++ rest), length-append mid rest)) in
    rw (lo, hi, size, drop-append_self pre (mid ++ rest), take-append_self mid rest) refl

-- An index into the middle of `pre ++ (area ++ post)`.
pub index-area :
    (pre area post : List ℕ) (i pos : ℕ)
    → pos ≡ length pre + i
    → i < length area
    → index (pre ++ (area ++ post)) pos ≡ ok (get_or area i 0)
index-area pre area post i pos e h =
    rw (e, index-append pre (area ++ post) i) (index_front area post i h)
