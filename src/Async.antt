-- ===== src/Async.antt =====
-- src/librtlsdr.c: `rtlsdr_read_async`, `rtlsdr_cancel_async` and `_libusb_callback`.
pub mod Stops
mod Tests
use rtl_sdr_blog.Common.{
  Bool, List, Option, [], false, if◌then◌else◌, leb, ltb, none, some, suc, true, zero, ℕ, ◌%◌, ◌&&◌,
  ◌*◌, ◌+◌, ◌==◌, ◌||◌, ◌∷◌,
}

pub data AsyncStatus : Type 0 where
  inactive canceling running : AsyncStatus

-- The status of a transfer; `other_status` stands for time-out, stall and overflow.
pub data XferStatus : Type 0 where
  completed cancelled xfer_error no_device other_status : XferStatus

-- What happens while libusb handles events: a transfer ends, or another thread cancels.
pub data Event : Type 0 where
  ended : ℕ → XferStatus → Event
  user_cancels : Event

-- The fields of `rtlsdr_dev_t` for the transfers. `delivered` counts the buffers given to the
-- program, `calls` the calls of libusb; `requested` are the transfers that libusb was asked to cancel
-- and that have not ended since.
pub record Async : Type 0 where
  pub async_status : AsyncStatus
  pub async_cancel : Bool
  pub xfer : ℕ → XferStatus
  pub requested : ℕ → Bool
  pub xfer_buf_num : ℕ
  pub xfer_buf_len : ℕ
  pub dev_lost : Bool
  pub xfer_errors : ℕ
  pub delivered : ℕ
  pub calls : ℕ

abbrev pub default_buf_number : ℕ
default_buf_number = 15

abbrev pub default_buf_length : ℕ
default_buf_length = 16 * 32 * 512

-- How `libusb_handle_events_timeout_completed` returns.
pub data Polled : Type 0 where
  handled interrupted poll_failed : Polled

-- What libusb answers, which may differ from call to call: whether a transfer is taken, what a poll
-- returns and the events in it, and whether a transfer can be cancelled.
pub record Libusb : Type 0 where
  pub submits : ℕ → Bool
  pub poll : Async → Polled
  pub events : Async → List Event
  pub cancels : Async → ℕ → Bool

abbrev pub is_cancelled : XferStatus → Bool
is_cancelled cancelled = true
is_cancelled st = false

abbrev pub is_inactive : AsyncStatus → Bool
is_inactive inactive = true
is_inactive st = false

abbrev pub is_canceling : AsyncStatus → Bool
is_canceling canceling = true
is_canceling st = false

-- Only a running stream is cancelled.
abbrev pub cancel_by : AsyncStatus → Async → Async
cancel_by inactive s = s
cancel_by canceling s = s
cancel_by running s = record s { async_status = canceling; async_cancel = true }

unfoldable pub cancel_async : Async → Async
cancel_async s = cancel_by s.async_status s

abbrev pub with_xfer : ℕ → XferStatus → Async → Async
with_xfer i st s = record s {
  xfer = λ j. if j == i then st else s.xfer j;
  requested = λ j. if j == i then false else s.requested j;
}

-- `libusb_cancel_transfer` where it succeeds.
abbrev pub request : Bool → ℕ → Async → Async
request ok i s = record s {
  requested = λ j. if (j == i) && ok then true else s.requested j;
  calls = s.calls + 1;
}

unfoldable pub lose : Async → Async
lose s = cancel_async (record s { dev_lost = true })

abbrev pub lose_if_full : Async → Async
lose_if_full s = if leb s.xfer_buf_num s.xfer_errors then lose s else s

-- `_libusb_callback`, by the status; a completed transfer is submitted again.
unfoldable pub callback_by : XferStatus → Async → Async
callback_by completed s = record s { delivered = s.delivered + 1; xfer_errors = 0 }
callback_by cancelled s = s
callback_by xfer_error s = lose_if_full (record s { xfer_errors = s.xfer_errors + 1 })
callback_by no_device s = lose s
callback_by other_status s = lose_if_full s

unfoldable pub handle_event : Event → Async → Async
handle_event (ended i st) s = callback_by st (with_xfer i st s)
handle_event user_cancels s = cancel_async s

unfoldable pub handle_all : List Event → Async → Async
handle_all [] s = s
handle_all (e ∷ events) s = handle_all events (handle_event e s)

module _ (libusb : Libusb) where
  unfoldable pub handle_events : Async → Async
  handle_events s = handle_all (libusb.events s) (record s { calls = s.calls + 1 })

  -- The transfers from `i` on, `left` of them; `next` is the status to go on with.
  unfoldable pub cancel_pass : ℕ → ℕ → Async → AsyncStatus → Async × AsyncStatus
  cancel_pass zero i s next = (s, next)
  cancel_pass (suc left) i s next =
      let skipped = cancel_pass left (i + 1) s next in
      let tried =
        cancel_pass left (i + 1) (handle_events (request (libusb.cancels s i) i s))
          (if libusb.cancels s i then canceling else next) in
      if is_cancelled (s.xfer i) then skipped else tried

  -- The loop, on fuel, from its test; `next_status` is what the last round left.
  unfoldable pub event_loop : ℕ → Async → AsyncStatus → Option Async
  event_loop zero s next_status = none
  event_loop (suc fuel) s next_status =
      let t = handle_events s in
      let u = cancel_pass t.xfer_buf_num 0 t inactive in
      let ended_at = λ (st : AsyncStatus) (v : Async). record v { async_status = st } in
      let idle = event_loop fuel t next_status in
      let busy = event_loop fuel u.0 u.1 in
      if is_inactive s.async_status then some (ended_at next_status s) else elim (libusb.poll s) [
        | interrupted ↦ idle
        | poll_failed ↦ some (ended_at next_status t)
        | handled ↦
            if is_canceling t.async_status
            then (if u.0.dev_lost || is_inactive u.1
                then some (ended_at u.1 (handle_events u.0))
                else busy)
            else idle
      ]

  -- The transfers are submitted in turn, until one is refused.
  unfoldable pub submit_all : ℕ → ℕ → Bool
  submit_all zero i = true
  submit_all (suc left) i =
      let rest = submit_all left (i + 1) in if libusb.submits i then rest else false

  unfoldable pub started : ℕ → ℕ → Async → Async
  started buf_num buf_len s =
      let num = if ltb 0 buf_num then buf_num else default_buf_number in
      record s {
        async_status = if submit_all num 0 then running else canceling;
        async_cancel = false;
        xfer = λ i. completed;
        requested = λ i. false;
        xfer_buf_num = num;
        xfer_buf_len =
            if ltb 0 buf_len && (buf_len % 512 == 0) then buf_len else default_buf_length;
      }

  -- A stream that is not inactive is left as it is, with the error -2.
  unfoldable pub read_async : ℕ → ℕ → ℕ → Async → Option Async
  read_async fuel buf_num buf_len s =
      if is_inactive s.async_status
      then event_loop fuel (started buf_num buf_len s) inactive
      else some s
