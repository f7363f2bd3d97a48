-- ===== src/Async/Tests.antt =====
-- A libusb that reports late what it cancels, and a stream that is cancelled over it.
use mathlib.Core.Option
use rtl_sdr_blog.Common.{
  Bool, List, [], false, if◌then◌else◌, not, refl, some, suc, true, zero, ℕ, ◌%◌, ◌&&◌, ◌==◌, ◌∷◌,
  ◌≡◌,
}
use rtl_sdr_blog.Async.{
  Async, Event, Libusb, XferStatus, callback_by, cancel_async, cancel_pass, cancelled, completed,
  ended, event_loop, handle_all, handle_event, handle_events, handled, inactive, no_device,
  other_status, running, user_cancels, xfer_error,
}

-- The reports for the transfers below `n`.
reports_below : ℕ → (ℕ → Bool) → List Event
reports_below zero r = []
reports_below (suc n) r = if r n then ended n cancelled ∷ reports_below n r else reports_below n r

-- A transfer in progress, which is submitted again each time that it is completed.
abbrev is_completed : XferStatus → Bool
is_completed completed = true
is_completed cancelled = false
is_completed xfer_error = false
is_completed no_device = false
is_completed other_status = false

-- In each poll another thread cancels too, and each seventh poll reports what was cancelled.
abbrev late_libusb : Libusb
late_libusb = record {
  submits = λ i. true;
  poll = λ s. handled;
  events = λ s.
      user_cancels ∷ (if s.calls % 7 == 0 then reports_below s.xfer_buf_num s.requested else []);
  cancels = λ s i. not (s.requested i) && is_completed (s.xfer i);
}

abbrev Refuses : Async → ℕ → Type 0
Refuses s i = (not (s.requested i) && is_completed (s.xfer i)) ≡ false

abbrev streaming : Async
streaming = record {
  async_status = running;
  async_cancel = false;
  xfer = λ i. completed;
  requested = λ i. false;
  xfer_buf_num = 2;
  xfer_buf_len = 16384;
  dev_lost = false;
  xfer_errors = 0;
  delivered = 7;
  calls = 1;
}

-- The loop is over here before the end of the transfer 0, which was asked to be cancelled, is
-- reported.
ends_before_report :
    Option.map (λ s. s.requested 0) (event_loop late_libusb 2 streaming inactive) ≡ some true
unfolding event_loop handle_events handle_all handle_event cancel_async cancel_pass reports_below
    callback_by
ends_before_report = refl
