-- ===== src/Tcp/Commands/Wire.antt =====
-- The bytes of a command, and the commands read back from them.
use rtl_sdr_blog.Common.{List, [], arith, refl, ℕ, ◌%◌, ◌*◌, ◌+◌, ◌/◌, ◌^◌, ◌∷◌, ◌≡◌}
use rtl_sdr_blog.Tcp.Commands.{Command, parse}

-- The five bytes, the parameter's highest first.
abbrev pub encode : Command → List ℕ → List ℕ
encode c bytes =
    c.cmd
    ∷ c.param / 2 ^ 24
    ∷ c.param / 2 ^ 16 % 2 ^ 8
    ∷ c.param / 2 ^ 8 % 2 ^ 8
    ∷ c.param % 2 ^ 8
    ∷ bytes

abbrev pub encode_all : List Command → List ℕ
encode_all [] = []
encode_all (c ∷ commands) = encode c (encode_all commands)

-- For any list of commands, the commands read from their bytes, the parameter with its highest
-- byte first, are those commands.
pub parse-encode_all : (commands : List Command) → parse (encode_all commands) ≡ commands
unfolding parse
parse-encode_all [] = refl
parse-encode_all (c ∷ commands) = rw (parse-encode_all commands, joined c.param) refl
  where
    joined :
        (n : ℕ)
        → n / 2 ^ 24 * 2 ^ 24 + n / 2 ^ 16 % 2 ^ 8 * 2 ^ 16 + n / 2 ^ 8 % 2 ^ 8 * 2 ^ 8 + n % 2 ^ 8
          ≡ n
    joined n = omega arith
