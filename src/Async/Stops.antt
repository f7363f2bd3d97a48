-- ===== src/Async/Stops.antt =====
-- A stream that is cancelled comes to its end.
use rtl_sdr_blog.Common.{Bool, Option, false, some, true, ℕ, ◌<◌, ◌≡◌, ◌≢◌, ◌⊎◌}
use rtl_sdr_blog.Async.{
  Async, AsyncStatus, Libusb, canceling, cancelled, handle_events, inactive, interrupted,
  poll_failed, request,
}

-- What libusb documents of cancelling: the transfer ends at some later time, with the status
-- `cancelled`, and libusb refuses to cancel one that is already cancelled, that was asked to be and
-- has not ended yet, or that is not in progress. So what it refuses now it refuses after events too
-- (a transfer that is being cancelled is not completed, and so not submitted again), and after a
-- request for any transfer.
pub record IsDocumented (libusb : Libusb) : Type 0 where
  pub once : (s : Async) (i : ℕ) → s.requested i ≡ true → libusb.cancels s i ≡ false
  pub over : (s : Async) (i : ℕ) → s.xfer i ≡ cancelled → libusb.cancels s i ≡ false
  pub after_events :
      (s : Async) (i : ℕ)
      → libusb.cancels s i ≡ false
      → libusb.cancels (handle_events libusb s) i ≡ false
  pub after_request :
      (s : Async) (i j : ℕ) (ok : Bool)
      → libusb.cancels s i ≡ false
      → libusb.cancels (request ok j s) i ≡ false

-- What events leave alone once the stream is being cancelled.
abbrev Kept : ℕ → Async → Type 0
Kept num s = (s.async_status ≡ canceling) × (s.xfer_buf_num ≡ num)

-- A lost device stays lost.
abbrev Lost : Async → Type 0
Lost s = s.dev_lost ≡ true

-- No poll is interrupted by a signal.
abbrev pub IsUninterrupted : Libusb → Type 0
IsUninterrupted libusb = (s : Async) → libusb.poll s ≢ interrupted

module _ (libusb : Libusb) (documented : IsDocumented libusb) where
  -- There is nothing left to cancel among the transfers below `i`.
  abbrev pub RefusedBelow : ℕ → Async → Type 0
  RefusedBelow i s = (j : ℕ) → j < i → libusb.cancels s j ≡ false

  -- The loop is over, with nothing left to cancel: the status is inactive, the device is lost, or a
  -- poll failed.
  pub record Stopped (num : ℕ) (o : Option Async) : Type 0 where
    pub last : Async
    pub status : AsyncStatus
    pub returned : o ≡ some (record last { async_status = status })
    pub refused : RefusedBelow num last
    pub why :
        (status ≡ inactive) ⊎ (last.dev_lost ≡ true) ⊎ ((s : Async) × (libusb.poll s ≡ poll_failed))

  abbrev tried : ℕ → Async → Async
  tried i s = handle_events libusb (request (libusb.cancels s i) i s)
