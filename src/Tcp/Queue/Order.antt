-- ===== src/Tcp/Queue/Order.antt =====
-- Buffers are sent in the order in which they came, each once at most, and the list is bounded.
use mathlib.Core.List.{append_assoc, append-nil}
use rtl_sdr_blog.Common.{
  Bool, List, [], arith, false, if◌then◌else◌, inl, inr, length, length-append, refl, suc, true,
  zero, ℕ, ◌&&◌, ◌++◌, ◌+◌, ◌<◌, ◌==◌, ◌∷◌, ◌≡◌, ◌≢◌, ◌≤◌, ◌⊎◌,
}
use rtl_sdr_blog.Common.Word.{nonzero}
use rtl_sdr_blog.Tcp.Queue.{
  Buffer, Reach, Server, Step, callback, enqueue, here, next, send_one, empty_server, take_all,
}

abbrev pub IsSublist : List Buffer → List Buffer → Type 0
IsSublist [] ys = Unit
IsSublist (x ∷ xs) [] = ⊥
IsSublist (x ∷ xs) (y ∷ ys) = ((x ≡ y) × IsSublist xs ys) ⊎ IsSublist (x ∷ xs) ys

IsSublist-later :
    (xs : List Buffer) (y : Buffer) (ys : List Buffer) → IsSublist xs ys → IsSublist xs (y ∷ ys)
IsSublist-later [] y ys h = tt
IsSublist-later (x ∷ xs) y ys h = inr h

-- Without an element.
IsSublist-less :
    (before : List Buffer) (b : Buffer) (bs ys : List Buffer)
    → IsSublist (before ++ (b ∷ bs)) ys
    → IsSublist (before ++ bs) ys
IsSublist-less [] b bs [] h = absurd h
IsSublist-less [] b bs (y ∷ ys) h = elim h [
  | inl e ↦ IsSublist-later bs y ys e.1
  | inr k ↦ IsSublist-later bs y ys (IsSublist-less [] b bs ys k)
]
IsSublist-less (a ∷ before) b bs [] h = absurd h
IsSublist-less (a ∷ before) b bs (y ∷ ys) h = elim h [
  | inl e ↦ inl (e.0, IsSublist-less before b bs ys e.1)
  | inr k ↦ inr (IsSublist-less (a ∷ before) b bs ys k)
]

-- With a new last element on both sides.
IsSublist-more :
    (xs ys : List Buffer) (b : Buffer)
    → IsSublist xs ys
    → IsSublist (xs ++ (b ∷ [])) (ys ++ (b ∷ []))
IsSublist-more [] [] b h = inl (refl, tt)
IsSublist-more [] (y ∷ ys) b h = inr (IsSublist-more [] ys b tt)
IsSublist-more (x ∷ xs) [] b h = absurd h
IsSublist-more (x ∷ xs) (y ∷ ys) b h = elim h [
  | inl e ↦ inl (e.0, IsSublist-more xs ys b e.1)
  | inr k ↦ inr (IsSublist-more (x ∷ xs) ys b k)
]

-- What is sent and what waits.
abbrev pub all_of : Server → List Buffer
all_of s = s.sent ++ s.curelem ++ s.ll_buffers

abbrev pub InOrder : ℕ → Server → Type 0
InOrder llbuf_num s =
    IsSublist (all_of s) s.received × (0 < llbuf_num → length s.ll_buffers ≤ llbuf_num + 3)

module _ (llbuf_num : ℕ) where
  enqueue-bound :
      (bufs : List Buffer) (rpt : Buffer)
      → 0 < llbuf_num
      → length bufs ≤ llbuf_num + 3
      → length (enqueue llbuf_num bufs rpt) ≤ llbuf_num + 3
  unfolding enqueue
  enqueue-bound [] rpt limit h = omega arith
  enqueue-bound (oldest ∷ newer) rpt limit h =
      by_test (nonzero llbuf_num && (length newer == llbuf_num + 2)) refl
    where
      nonzero_pos : (n : ℕ) → 0 < n → nonzero n ≡ true
      nonzero_pos zero k = absurd (omega arith)
      nonzero_pos (suc n) k = refl

      not_full :
          (nonzero llbuf_num && (length newer == llbuf_num + 2)) ≡ false
          → length newer ≢ llbuf_num + 2
      not_full e = ground (arith, nonzero_pos llbuf_num limit)

      by_test :
          (b : Bool)
          → (nonzero llbuf_num && (length newer == llbuf_num + 2)) ≡ b
          → length ((if b then newer else oldest ∷ newer) ++ (rpt ∷ [])) ≤ llbuf_num + 3
      by_test true e = omega (arith, length-append newer (rpt ∷ []))
      by_test false e = omega (arith, length-append newer (rpt ∷ []), not_full e)

  enqueue-IsSublist :
      (before bufs received : List Buffer) (rpt : Buffer)
      → IsSublist (before ++ bufs) received
      → IsSublist (before ++ enqueue llbuf_num bufs rpt) (received ++ (rpt ∷ []))
  unfolding enqueue
  enqueue-IsSublist before [] received rpt h =
      IsSublist-more before received rpt (rw (append-nil before) at h)
  enqueue-IsSublist before (oldest ∷ newer) received rpt h =
      by_test (nonzero llbuf_num && (length newer == llbuf_num + 2))
    where
      by_test :
          (b : Bool)
          → IsSublist
              (before ++ ((if b then newer else oldest ∷ newer) ++ (rpt ∷ [])))
              (received ++ (rpt ∷ []))
      by_test true = rw⁻¹ (append_assoc before newer (rpt ∷ [])) (
          IsSublist-more (before ++ newer) received rpt
            (IsSublist-less before oldest newer received h))
      by_test false =
          rw⁻¹ (append_assoc before (oldest ∷ newer) (rpt ∷ []))
            (IsSublist-more (before ++ (oldest ∷ newer)) received rpt h)

  Step-InOrder : {s t : Server} → Step llbuf_num s t → InOrder llbuf_num s → InOrder llbuf_num t
  Step-InOrder (callback s buf) (order, bound) = (
    enqueue-IsSublist (s.sent ++ s.curelem) s.ll_buffers s.received buf order,
    λ limit. enqueue-bound s.ll_buffers buf limit (bound limit),
  )
  Step-InOrder (take_all s taken) (order, bound) = (
    rw (append-nil (s.sent ++ s.ll_buffers)) (rw (taken, append-nil s.sent) at order),
    λ limit. omega arith,
  )
  Step-InOrder (send_one s buf rest e) (order, bound) =
      (rw (append_assoc s.sent (buf ∷ []) rest) (rw e at order), bound)

  -- In every state that the server reaches from its start by any interleaving of the callback, the
  -- taking of the list by the worker and the sending of buffers, what was sent, followed by what
  -- the worker holds and the shared list, is a sublist of what was received (no buffer is sent
  -- twice or out of order), and with a limit that is not 0 the shared list holds at most three
  -- buffers more than the limit.
  pub Reach-InOrder : {s : Server} → Reach llbuf_num empty_server s → InOrder llbuf_num s
  Reach-InOrder here = (tt, λ limit. omega arith)
  Reach-InOrder (next r step) = Step-InOrder step (Reach-InOrder r)
