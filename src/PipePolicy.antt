-- ===== src/PipePolicy.antt =====
-- usb-lib/src/core/pipe_policy.rs: the pipe policies and their kinds.
use rust_usb.Base.{ℕ, Bool, Option, none, some}

pub data PipePolicyKind : Type 0 where
  short_packet_terminate auto_clear_stall transfer_timeout allow_partial_reads : PipePolicyKind
  auto_flush raw_io reset_pipe_on_resume : PipePolicyKind

pub data PipePolicy : Type 0 where
  short_packet_terminate auto_clear_stall : Bool → PipePolicy
  transfer_timeout : ℕ → PipePolicy
  allow_partial_reads auto_flush raw_io reset_pipe_on_resume : Bool → PipePolicy

unfoldable pub kind : PipePolicy → PipePolicyKind
kind (PipePolicy.short_packet_terminate _) = PipePolicyKind.short_packet_terminate
kind (PipePolicy.auto_clear_stall _) = PipePolicyKind.auto_clear_stall
kind (PipePolicy.transfer_timeout _) = PipePolicyKind.transfer_timeout
kind (PipePolicy.allow_partial_reads _) = PipePolicyKind.allow_partial_reads
kind (PipePolicy.auto_flush _) = PipePolicyKind.auto_flush
kind (PipePolicy.raw_io _) = PipePolicyKind.raw_io
kind (PipePolicy.reset_pipe_on_resume _) = PipePolicyKind.reset_pipe_on_resume

unfoldable pub as_bool : PipePolicy → Option Bool
as_bool (PipePolicy.short_packet_terminate v) = some v
as_bool (PipePolicy.auto_clear_stall v) = some v
as_bool (PipePolicy.allow_partial_reads v) = some v
as_bool (PipePolicy.auto_flush v) = some v
as_bool (PipePolicy.raw_io v) = some v
as_bool (PipePolicy.reset_pipe_on_resume v) = some v
as_bool (PipePolicy.transfer_timeout _) = none
