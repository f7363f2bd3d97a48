-- ===== src/Tcp/Queue.antt =====
-- src/rtl_tcp.c: the list of sample buffers between `rtlsdr_callback` and `tcp_worker`.
pub mod Order
use rtl_sdr_blog.Common.{List, [], if◌then◌else◌, length, ℕ, ◌&&◌, ◌++◌, ◌+◌, ◌==◌, ◌∷◌, ◌≡◌}
use rtl_sdr_blog.Common.Word.{nonzero}

abbrev pub Buffer : Type 0
Buffer = List ℕ

-- What the callback does with `ll_buffers`. `num_queued` is the number of buffers after the first
-- one; the oldest is freed where it is `llbuf_num` + 2. A `llbuf_num` of 0 sets no limit.
unfoldable pub enqueue : ℕ → List Buffer → Buffer → List Buffer
enqueue llbuf_num [] rpt = rpt ∷ []
enqueue llbuf_num (oldest ∷ newer) rpt =
    (if nonzero llbuf_num && (length newer == llbuf_num + 2) then newer else oldest ∷ newer)
    ++ (rpt ∷ [])

-- The shared list, the list that the worker took, and what went in and out so far.
pub record Server : Type 0 where
  pub ll_buffers : List Buffer
  pub curelem : List Buffer
  pub received : List Buffer
  pub sent : List Buffer

-- The callback and the worker take turns: each of these is made with the mutex held, or touches
-- nothing that the other one does.
pub data Step (llbuf_num : ℕ) : Server → Server → Type 0 where
  callback :
      (s : Server) (buf : Buffer)
      → Step llbuf_num s (record s {
        ll_buffers = enqueue llbuf_num s.ll_buffers buf;
        received = s.received ++ (buf ∷ []);
      })
  take_all :
      (s : Server)
      → s.curelem ≡ []
      → Step llbuf_num s (record s { ll_buffers = []; curelem = s.ll_buffers })
  send_one :
      (s : Server) (buf : Buffer) (rest : List Buffer)
      → s.curelem ≡ buf ∷ rest
      → Step llbuf_num s (record s { curelem = rest; sent = s.sent ++ (buf ∷ []) })

pub data Reach (llbuf_num : ℕ) (s : Server) : Server → Type 0 where
  here : Reach llbuf_num s s
  next : {t u : Server} → Reach llbuf_num s t → Step llbuf_num t u → Reach llbuf_num s u

abbrev pub empty_server : Server
empty_server = record { ll_buffers = []; curelem = []; received = []; sent = [] }
