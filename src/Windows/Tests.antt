-- ===== src/Windows/Tests.antt =====
-- A Windows that keeps account of its handles, and the theorems on it.
use rust_usb.Base.{
  ℕ, suc, ◌+◌, ◌-◌, ◌≤◌, ◌≡◌, ◌⊎◌, refl, List, [], ◌∷◌, none, arith, ◌==◌, not, if◌then◌else◌, Bool,
  true, false, ◌&&◌, contains,
}
use rust_usb.Error.{UsbError, ok, err, from_win32}
use rust_usb.PipePolicy.{PipePolicy, kind}
use rust_usb.Windows.{Win, WinUsbDevice, done, failed, WinUsb, Attached, PipeInformation, object_0}
use rust_usb.Windows.Device.{
  interface_handle, handle_for_endpoint, not_found, claim_interface, drop,
}
use rust_usb.Windows.Ledger.{Ledger, Held}
use rust_usb.Windows.Lifetime.{claim_interface-Held}
use rust_usb.Windows.Drop.{Step, claim, release, steps}
use rust_usb.Windows.Policy.{get_pipe_policy, set_pipe_policy, get_pipe_policy-set_pipe_policy}
use rust_usb.Windows.Overlapped.{overlapped_read, overlapped_write, io_pending}
use rust_usb.Windows.Open.{open_device}
use rust_usb.Windows.Files.{Files}
use rust_usb.Windows.Entries.{held}
use rust_usb.Windows.Using.{handle_for_endpoint-steps}
use rust_usb.Windows.Session.{Idle, open_device-session}
use rust_usb.Windows.Isoch.{isoch_transfer_read, isoch_transfer_write}
use rust_usb.Windows.Buffers.{Buffers, Kept, isoch_transfers_keep}
use rust_usb.Windows.Leaks.{isoch_read_leaks}
use rust_usb.Windows.Events.{Events, overlapped_events, overlapped_read_leaks, Balanced}

pub record World : Type 0 where
  pub live : List ℕ
  pub clean : Bool
  pub policy : List ℕ
  pub open_handles : ℕ
  pub buffers : ℕ
  pub sets : ℕ

abbrev sum : List ℕ → ℕ
sum [] = 0
sum (x ∷ xs) = x + sum xs

abbrev without : ℕ → List ℕ → List ℕ
without h [] = []
without h (x ∷ xs) = if x == h then without h xs else x ∷ without h xs

pub contains-without :
    (h j : ℕ) (xs : List ℕ) → contains j (without h xs) ≡ (contains j xs && not (h == j))
contains-without h j [] = refl
contains-without h j (x ∷ xs) = ground (arith, contains-without h j xs)

contains-le : (j : ℕ) (xs : List ℕ) → contains j xs ≡ true → j ≤ sum xs
contains-le j [] e = cc
contains-le j (x ∷ xs) e = ground (arith, contains-le j xs)

pub fresh_handle : (xs : List ℕ) → contains (suc (sum xs)) xs ≡ false
fresh_handle xs = ground (arith, contains-le (suc (sum xs)) xs)

abbrev pipe : PipeInformation
pipe = record { pipe_type = 2; pipe_id = 0x81; maximum_packet_size = 512; interval = 0 }

-- One associated interface, number 1, with one pipe; a pending transfer always fails.
abbrev pub api : WinUsb World
api = record {
  get_associated_interface =
      λ u i w. let h = suc (sum w.live) in (done h, record w { live = h ∷ w.live });
  query_interface_number = λ h w. done 1;
  query_pipe = λ h i w. if i == 0 then done pipe else failed 259;
  free = λ h w. record w { live = without h w.live; clean = w.clean && contains h w.live };
  close_handle = λ h w. record w { open_handles = w.open_handles - 1 };
  control_transfer = λ h setup buf w. (done 0, buf, w);
  read_pipe = λ h e buf w. (done 0, buf, w);
  write_pipe = λ h e buf w. (done 0, w);
  reset_pipe = λ h e w. (done tt, w);
  abort_pipe = λ h e w. (done tt, w);
  get_alternate_setting = λ h w. done 0;
  set_alternate_setting = λ h a w. (done tt, w);
  get_pipe_policy = λ h e id size w. done w.policy;
  set_pipe_policy = λ h e id bytes w. (done tt, record w { policy = bytes });
  create_event = λ w. (done 9, record w { open_handles = suc w.open_handles });
  read_pipe_overlapped = λ h e buf event w. (failed io_pending, buf, w);
  write_pipe_overlapped = λ h e buf event w. (done 2, w);
  wait_for_single_object = λ event ms w. (object_0, w);
  get_overlapped_result = λ file event block buf w. (failed 0x8007_001F, buf, w);
  cancel_io = λ file event w. (done tt, w);
  create_file = λ writable path w.
      if writable
      then (failed 0x8007_0005, w)
      else (done 3, record w { open_handles = suc w.open_handles });
  initialize = λ file w. let h = suc (sum w.live) in (done h, record w { live = h ∷ w.live });
  find_reset_device = λ w. (none, w);
  reset_device = λ f h w. (done tt, w);
  register_isoch_buffer = λ h e buf w. (done 11, record w { buffers = suc w.buffers });
  unregister_isoch_buffer = λ b w. record w { buffers = w.buffers - 1 };
  read_isoch_pipe_asap = λ b length event buf w. (done tt, buf, w);
  write_isoch_pipe_asap = λ b length event buf w. (done tt, w);
}

unfoldable pub ledger : Ledger api
ledger = record {
  live = λ w h. contains h w.live;
  Sound = λ w. w.clean ≡ true;
  get_done = λ u i h w e. ground (arith, e, fresh_handle w.live);
  get_live = λ u i h j w e. ground (arith, e);
  get_failed = λ u i c j w e. cc;
  get_sound = λ u i w s. s;
  free_live = λ h j w. contains-without h j w.live;
  free_sound = λ h w l s. ground (arith, l, s);
  close_live = λ h j w. refl;
  close_sound = λ h w s. s;
}

abbrev world : World
world = record { live = 5 ∷ []; clean = true; policy = []; open_handles = 0; buffers = 0; sets = 0 }

abbrev opened : Attached World
opened = record {
  device = record { file_handle = 3; usb_handle = 5; assoc_handles = []; endpoint_cache = [] };
  world = world;
}

opened-Held : Held api ledger opened
unfolding ledger
opened-Held = record {
  exact = λ j. refl;
  distinct = (refl, tt);
  one_each = tt;
  cached = tt;
  sound = refl;
}

claim_interface-Held_example :
    let (r, s) = claim_interface api 1 opened in
    Held api ledger s
    × (((r ≡ ok tt) × (h : ℕ) × (interface_handle api 1 s.device ≡ ok h))
        ⊎ ((r ≡ not_found api 1) × (s.device ≡ opened.device)))
claim_interface-Held_example = claim_interface-Held api ledger 1 opened opened-Held

abbrev client : List Step
client = claim 1 ∷ release 1 ∷ claim 1 ∷ []

abbrev cached : Attached World
cached = record opened { device = record opened.device { endpoint_cache = (0x81, 5) ∷ [] } }

get_pipe_policy-set_pipe_policy_example :
    (get_pipe_policy api 0x81
      (kind (PipePolicy.transfer_timeout 70000))
      (set_pipe_policy api 0x81 (PipePolicy.transfer_timeout 70000) cached).1).0
    ≡ ok (PipePolicy.transfer_timeout 70000)
unfolding set_pipe_policy
get_pipe_policy-set_pipe_policy_example =
    get_pipe_policy-set_pipe_policy api 0x81 5 (PipePolicy.transfer_timeout 70000) cached
      (λ h e id bytes w r. refl) refl (omega arith) refl

events : Events api
events = record {
  open_events = λ w. w.open_handles;
  created = λ event w e. refl;
  not_created = λ code w e. cc;
  closed = λ event w. refl;
  read = λ h e event buf w. refl;
  written = λ h e event buf w. refl;
  waited = λ event ms w. refl;
  collected = λ file event block buf w. refl;
  cancelled = λ file event w. refl;
}

overlapped_events_example :
    let (r, _, w1) = overlapped_read api 3 5 0x81 (0 ∷ []) 5_000_000 world in
    let (q, w2) = overlapped_write api 3 5 0x81 (0 ∷ []) 5_000_000 world in
    Balanced api events 0 r w1.open_handles × Balanced api events 0 q w2.open_handles
unfolding events
overlapped_events_example = overlapped_events api events 3 5 0x81 5_000_000 (0 ∷ []) world

overlapped_read_leaks_example :
    let (r, _, w) = overlapped_read api 3 5 0x81 (0 ∷ []) 5_000_000 world in
    (r ≡ err (from_win32 0x8007_001F)) × (w.open_handles ≡ 1)
unfolding events
overlapped_read_leaks_example =
    overlapped_read_leaks api events 9 0x8007_001F 3 5 0x81 5_000_000 (0 ∷ []) world refl refl refl
      refl

buffers : Buffers api events
unfolding events
buffers = record {
  buffers = λ w. w.buffers;
  registered = λ h e b buf w p. refl;
  refused = λ h e code buf w p. cc;
  unregistered = λ b w. refl;
  event_created = λ w. refl;
  event_closed = λ event w. refl;
  read = λ b n event buf w. refl;
  written = λ b n event buf w. refl;
  waited = λ event ms w. refl;
  collected = λ file event block buf w. refl;
  registering_keeps = λ h e buf w. refl;
  unregistering_keeps = λ b w. refl;
  reading_keeps = λ b n event buf w. refl;
  writing_keeps = λ b n event buf w. refl;
}

isoch_transfers_keep_example :
    let (r, _, w1) = isoch_transfer_read api 3 5 0x81 (0 ∷ []) world in
    let (q, w2) = isoch_transfer_write api 3 5 0x81 (0 ∷ []) world in
    Kept api events buffers world r w1 × Kept api events buffers world q w2
isoch_transfers_keep_example = isoch_transfers_keep api events buffers 3 5 0x81 (0 ∷ []) world

isoch_read_leaks_example :
    let (q, _, w) = isoch_transfer_read api 3 5 0x81 (0 ∷ []) world in
    (◌≡◌ {A = Win ℕ} (done 9) (failed 0x8007_001F)
      → (q ≡ err (from_win32 0x8007_001F)) × ((w.buffers ≡ 1) × (w.open_handles ≡ 0)))
    × ((event : ℕ)
        → ◌≡◌ {A = Win ℕ} (done 9) (done event)
        → ◌≡◌ {A = Win (Unit {0})} (done tt) (done tt)
        → ◌≡◌ {A = Win ℕ} (failed 0x8007_001F) (failed 0x8007_001F)
        → (q ≡ err (from_win32 0x8007_001F)) × ((w.buffers ≡ 1) × (w.open_handles ≡ 1)))
unfolding events buffers
isoch_read_leaks_example =
    isoch_read_leaks api events buffers 3 5 0x81 11 0x8007_001F (0 ∷ []) world (omega arith) refl

unfoldable pub files : Files api ledger
unfolding ledger
files = record {
  files = λ w. w.open_handles;
  file_opened = λ writable path h w e. opened_file writable h w e;
  file_refused = λ writable path code w e. refused_file writable code w e;
  file_live = λ writable path j w. same_live writable j w;
  file_sound = λ writable path w s. same_sound writable w s;
  made_live = λ file u j w e. ground (arith, e);
  unmade_live = λ file code j w e. cc;
  made_sound = λ file w s. s;
  made_files = λ file w. refl;
  closed = λ h w. refl;
  freed = λ h w. refl;
  associated = λ u i w. refl;
}
  where
    opened_file :
        (writable : Bool) (h : ℕ) (w : World)
        → (api.create_file writable [] w).0 ≡ done h
        → (api.create_file writable [] w).1.open_handles
          ≡ (if h == 0xffff_ffff_ffff_ffff then w.open_handles else suc w.open_handles)
    opened_file true h w e = cc
    opened_file false h w e = ground (arith, e)

    refused_file :
        (writable : Bool) (code : ℕ) (w : World)
        → (api.create_file writable [] w).0 ≡ failed code
        → (api.create_file writable [] w).1.open_handles ≡ w.open_handles
    refused_file true code w e = refl
    refused_file false code w e = cc

    same_live :
        (writable : Bool) (j : ℕ) (w : World)
        → contains j (api.create_file writable [] w).1.live ≡ contains j w.live
    same_live true j w = refl
    same_live false j w = refl

    same_sound :
        (writable : Bool) (w : World)
        → w.clean ≡ true
        → (api.create_file writable [] w).1.clean ≡ true
    same_sound true w e = e
    same_sound false w e = e

abbrev pub quiet : World
quiet = record { live = []; clean = true; policy = []; open_handles = 0; buffers = 0; sets = 0 }

open_device-session_example :
    let (r, w') = open_device api [] quiet in
    ((e : UsbError) × (r ≡ err e) × Idle api ledger files w' × (w'.open_handles ≡ 0))
    ⊎ ((d : WinUsbDevice) × (r ≡ ok d)
        × (let end = drop api (steps api client (record { device = d; world = w' })) in
            Idle api ledger files end × (end.open_handles ≡ 0)))
unfolding files
open_device-session_example = open_device-session api ledger files [] client quiet (λ j. refl, refl)

-- The device that is opened there has the file 3 and the handle 1.
handle_for_endpoint-steps_example :
    let d : WinUsbDevice = record {
      file_handle = 3;
      usb_handle = 1;
      assoc_handles = [];
      endpoint_cache = [];
    } in
    let s = steps api client (record { device = d; world = (open_device api [] quiet).1 }) in
    let h = handle_for_endpoint api 0x81 s in
    (contains h (held s.device) ≡ true) × (ledger.live s.world h ≡ true)
unfolding open_device ledger
handle_for_endpoint-steps_example =
    handle_for_endpoint-steps api ledger files [] client 0x81 quiet
      (record { file_handle = 3; usb_handle = 1; assoc_handles = []; endpoint_cache = [] })
      (λ j. refl, refl) refl
