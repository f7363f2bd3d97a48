-- ===== src/Tcp/Tests.antt =====
-- A run of the server, and the theorems at it.
use rtl_sdr_blog.Common.{List, [], refl, ◌∷◌, ◌≡◌}
use rtl_sdr_blog.Tcp.Queue.{
  Reach, Server, callback, enqueue, here, next, send_one, empty_server, take_all,
}
use rtl_sdr_blog.Tcp.Queue.Order.{InOrder, Reach-InOrder}
use rtl_sdr_blog.Tcp.Commands.{Command, parse}
use rtl_sdr_blog.Tcp.Commands.Wire.{encode_all, parse-encode_all}

-- Two buffers come, the worker takes both and sends the first, and a third one comes.
abbrev two_in : Server
two_in = record {
  ll_buffers = (1 ∷ 2 ∷ []) ∷ (3 ∷ []) ∷ [];
  curelem = [];
  received = (1 ∷ 2 ∷ []) ∷ (3 ∷ []) ∷ [];
  sent = [];
}

abbrev one_out : Server
one_out = record {
  ll_buffers = (4 ∷ []) ∷ [];
  curelem = (3 ∷ []) ∷ [];
  received = (1 ∷ 2 ∷ []) ∷ (3 ∷ []) ∷ (4 ∷ []) ∷ [];
  sent = (1 ∷ 2 ∷ []) ∷ [];
}

one_out-Reach : Reach 500 empty_server one_out
unfolding enqueue
one_out-Reach =
    next
      (next
        (next (next (next here (callback _ (1 ∷ 2 ∷ []))) (callback _ (3 ∷ [])))
          (take_all two_in refl))
        (send_one _ (1 ∷ 2 ∷ []) ((3 ∷ []) ∷ []) refl))
      (callback _ (4 ∷ []))

Reach-InOrder_example : InOrder 500 one_out
Reach-InOrder_example = Reach-InOrder 500 one_out-Reach

abbrev two_commands : List Command
two_commands = record { cmd = 2; param = 2400000 } ∷ record { cmd = 1; param = 100000000 } ∷ []

parse-encode_all_example : parse (encode_all two_commands) ≡ two_commands
parse-encode_all_example = parse-encode_all two_commands
