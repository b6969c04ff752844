-- ===== src/Windows/Policy.antt =====
-- usb-lib/src/backend/windows.rs: the pipe policies of WinUSB.
use rust_usb.Base.{
  get_or, ℕ, ◌<◌, ◌≡◌, refl, sym, ap, ◌∙◌, List, [], ◌∷◌, Option, none, some, length, lookup,
  nat_eq, ◌==◌, not, if◌then◌else◌, Bool, true, false, arith,
}
use rust_usb.Error.{Result, ok, panic, ◌>>=◌}
use rust_usb.Bytes.{u32_from_le_bytes}
use rust_usb.PipePolicy.{PipePolicy, PipePolicyKind, kind, as_bool}
use rust_usb.Backend.{Op}
use rust_usb.Windows.{Win, done, failed, from_win, WinUsb, Attached}
use rust_usb.Windows.Device.{handle_for_endpoint, cached_or_scan, to_le_bytes}

-- The policy's number, and whether its value is a ULONG of 4 bytes or a UCHAR of 1.
unfoldable pub winusb_policy_params : PipePolicyKind → ℕ × Bool
winusb_policy_params PipePolicyKind.short_packet_terminate = (0x01, false)
winusb_policy_params PipePolicyKind.auto_clear_stall = (0x02, false)
winusb_policy_params PipePolicyKind.transfer_timeout = (0x03, true)
winusb_policy_params PipePolicyKind.allow_partial_reads = (0x05, false)
winusb_policy_params PipePolicyKind.auto_flush = (0x06, false)
winusb_policy_params PipePolicyKind.raw_io = (0x07, false)
winusb_policy_params PipePolicyKind.reset_pipe_on_resume = (0x09, false)

-- The policy of a kind with a UCHAR value; `unreachable!` panics.
unfoldable pub bool_policy : PipePolicyKind → Bool → Result PipePolicy
bool_policy PipePolicyKind.short_packet_terminate b = ok (PipePolicy.short_packet_terminate b)
bool_policy PipePolicyKind.auto_clear_stall b = ok (PipePolicy.auto_clear_stall b)
bool_policy PipePolicyKind.transfer_timeout b = panic
bool_policy PipePolicyKind.allow_partial_reads b = ok (PipePolicy.allow_partial_reads b)
bool_policy PipePolicyKind.auto_flush b = ok (PipePolicy.auto_flush b)
bool_policy PipePolicyKind.raw_io b = ok (PipePolicy.raw_io b)
bool_policy PipePolicyKind.reset_pipe_on_resume b = ok (PipePolicy.reset_pipe_on_resume b)

-- The value behind the pointer: a u32 or a u8 that was 0 before the call wrote the bytes into it.
abbrev pub read_u32 : List ℕ → ℕ
read_u32 bytes =
    u32_from_le_bytes (get_or bytes 0 0) (get_or bytes 1 0) (get_or bytes 2 0) (get_or bytes 3 0)

abbrev pub read_u8 : List ℕ → ℕ
read_u8 bytes = get_or bytes 0 0

-- The policy of a kind from the bytes that were read.
unfoldable pub decode : PipePolicyKind → List ℕ → Result PipePolicy
unfolding winusb_policy_params
decode kind bytes =
    if (winusb_policy_params kind).1
    then ok (PipePolicy.transfer_timeout (read_u32 bytes))
    else bool_policy kind (not (read_u8 bytes == 0))

-- `policy.as_bool().unwrap_or(false) as u8`
abbrev pub byte_of : Option Bool → ℕ
byte_of none = 0
byte_of (some b) = if b then 1 else 0

-- The bytes that `set_pipe_policy` hands over.
unfoldable pub policy_bytes : PipePolicy → List ℕ
unfolding as_bool
policy_bytes (PipePolicy.transfer_timeout ms) = to_le_bytes ms
policy_bytes policy = byte_of (as_bool policy) ∷ []

module _ {W : Type 0} (api : WinUsb W) where
  unfoldable pub set_pipe_policy : ℕ → PipePolicy → Op (Attached W) (Unit {0})
  unfolding policy_bytes winusb_policy_params kind
  set_pipe_policy endpoint policy s =
      let h = handle_for_endpoint api endpoint s in
      let (r, w) =
        api.set_pipe_policy h endpoint (winusb_policy_params (kind policy)).0 (policy_bytes policy)
          s.world in
      (from_win r, record s { world = w })

  unfoldable pub get_pipe_policy : ℕ → PipePolicyKind → Op (Attached W) PipePolicy
  unfolding winusb_policy_params
  get_pipe_policy endpoint kind s =
      let h = handle_for_endpoint api endpoint s in
      let (policy_id, is_u32) = winusb_policy_params kind in
      let size = if is_u32 then 4 else 1 in
      (from_win (api.get_pipe_policy h endpoint policy_id size s.world) >>= decode kind, s)

abbrev pub IsU32 : PipePolicy → Type 0
IsU32 (PipePolicy.transfer_timeout ms) = ms < 4294967296
IsU32 _ = Unit {0}

byte-Bool : (b : Bool) → not ((if b then 1 else 0) == 0) ≡ b
byte-Bool true = refl
byte-Bool false = refl

decode-policy_bytes : (p : PipePolicy) → IsU32 p → decode (kind p) (policy_bytes p) ≡ ok p
unfolding decode kind policy_bytes bool_policy winusb_policy_params as_bool
decode-policy_bytes (PipePolicy.transfer_timeout ms) small =
    ap (λ v. ok (PipePolicy.transfer_timeout v)) (omega arith)
decode-policy_bytes (PipePolicy.short_packet_terminate b) small =
    ap (λ v. ok (PipePolicy.short_packet_terminate v)) (byte-Bool b)
decode-policy_bytes (PipePolicy.auto_clear_stall b) small =
    ap (λ v. ok (PipePolicy.auto_clear_stall v)) (byte-Bool b)
decode-policy_bytes (PipePolicy.allow_partial_reads b) small =
    ap (λ v. ok (PipePolicy.allow_partial_reads v)) (byte-Bool b)
decode-policy_bytes (PipePolicy.auto_flush b) small =
    ap (λ v. ok (PipePolicy.auto_flush v)) (byte-Bool b)
decode-policy_bytes (PipePolicy.raw_io b) small = ap (λ v. ok (PipePolicy.raw_io v)) (byte-Bool b)
decode-policy_bytes (PipePolicy.reset_pipe_on_resume b) small =
    ap (λ v. ok (PipePolicy.reset_pipe_on_resume v)) (byte-Bool b)

width :
    (p : PipePolicy)
    → (if (winusb_policy_params (kind p)).1 then 4 else 1) ≡ length (policy_bytes p)
unfolding kind policy_bytes winusb_policy_params as_bool
width (PipePolicy.short_packet_terminate b) = refl
width (PipePolicy.auto_clear_stall b) = refl
width (PipePolicy.transfer_timeout b) = refl
width (PipePolicy.allow_partial_reads b) = refl
width (PipePolicy.auto_flush b) = refl
width (PipePolicy.raw_io b) = refl
width (PipePolicy.reset_pipe_on_resume b) = refl

module _ {W : Type 0} (api : WinUsb W) where
  -- What WinUSB documents of the policies: a value that was set is the one that is read.
  abbrev pub Remembers : Type 0
  Remembers =
      (h endpoint id : ℕ) (bytes : List ℕ) (w : W)
      → (api.set_pipe_policy h endpoint id bytes w).0 ≡ done tt
      → api.get_pipe_policy h endpoint id (length bytes)
          (api.set_pipe_policy h endpoint id bytes w).1
        ≡ done bytes

  from_win-ok : {A : Type 0} (x : Win A) (a : A) → from_win x ≡ ok a → x ≡ done a
  from_win-ok (done b) a e = ground (arith, e)
  from_win-ok (failed c) a e = cc

  -- On an endpoint of a claimed interface, whose handle is in the cache: a policy that was set without
  -- an error is read back, under its kind, as it was set, a timeout to the last bit.
  pub get_pipe_policy-set_pipe_policy :
      (e h : ℕ) (p : PipePolicy) (s : Attached W)
      → Remembers
      → lookup e s.device.endpoint_cache ≡ some h
      → IsU32 p
      → (set_pipe_policy api e p s).0 ≡ ok tt
      → (get_pipe_policy api e (kind p) (set_pipe_policy api e p s).1).0 ≡ ok p
  unfolding set_pipe_policy get_pipe_policy handle_for_endpoint
  get_pipe_policy-set_pipe_policy e h p s remembers hit small set =
      let id = (winusb_policy_params (kind p)).0 in
      let accepted : (api.set_pipe_policy h e id (policy_bytes p) s.world).0 ≡ done tt =
        from_win-ok _ tt (
          ap
            (λ o.
              from_win
                (api.set_pipe_policy (cached_or_scan api e o s) e id (policy_bytes p) s.world).0)
            (sym hit)
          ∙ set) in
      let stored = remembers h e id (policy_bytes p) s.world accepted in
      rw (hit, width p, stored) (decode-policy_bytes p small)
