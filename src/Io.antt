-- ===== src/Io.antt =====
-- src/io.c: `my_read`, `readline` and `writen`. What the kernel answers to the calls of `read` and
-- `write` on a descriptor is a list of answers, in order.
pub mod Lines
pub mod Shrinks
pub mod Readn
mod Tests
use netvizd.Common.{
  ℕ, zero, suc, ◌+◌, ◌-◌, ◌≤◌, ◌≡◌, refl, Bool, true, false, List, [], ◌∷◌, ◌++◌, Option, none,
  some, ◌==◌, leb, if◌then◌else◌, length, take, drop,
}
use netvizd.Common.Int.{ℤ, pos, negsuc}
use netvizd.Common.Text.{Text}

-- An answer to `read`: some characters (none at the end of the input), or -1, with `EINTR` or with
-- another error. No answer is left at the end of the input.
pub data Read : Type 0 where
  chunk : Text → Read
  interrupted broken : Read

-- `rline_t`: the characters behind `rl_bufptr`, and the answers to come.
pub record Reader : Type 0 where
  pub rl_buf : Text
  pub answers : List Read

pub data Got : Type 0 where
  got : ℕ → Got
  got_end : Got
  got_error : Got

fill : List Read → Got × Reader
fill [] = (got_end, record { rl_buf = []; answers = [] })
fill (chunk [] ∷ rs) = (got_end, record { rl_buf = []; answers = rs })
fill (chunk (c ∷ cs) ∷ rs) = (got c, record { rl_buf = cs; answers = rs })
fill (interrupted ∷ rs) = fill rs
fill (broken ∷ rs) = (got_error, record { rl_buf = []; answers = rs })

take_char : Text → List Read → Got × Reader
unfolding fill
take_char [] rs = fill rs
take_char (c ∷ cs) rs = (got c, record { rl_buf = cs; answers = rs })

pub my_read : Reader → Got × Reader
unfolding take_char
my_read r = take_char r.rl_buf r.answers

-- What `readline` stores and returns.
pub record Line : Type 0 where
  pub stored : Text
  pub ret : ℤ

-- The end of the loop before `fuel` further characters: `n` is the loop's counter.
pub end_line : ℕ → Got → Line
end_line n (got c) = record { stored = c ∷ []; ret = pos n }
end_line n got_end = record { stored = []; ret = if n == 1 then pos 0 else pos n }
end_line n got_error = record { stored = []; ret = negsuc 0 }

pub goes_on : Got → Bool
goes_on (got c) = if c == b'\n' then false else true
goes_on _ = false

pub add_char : Got → Line → Line
add_char (got c) l = record l { stored = c ∷ l.stored }
add_char _ l = l

-- The loop, from the counter `n` on: it ends after `fuel` rounds, where `n` is `maxlen`.
pub read_loop : ℕ → ℕ → Reader → Line × Reader
unfolding my_read end_line goes_on add_char
read_loop zero n r = (record { stored = []; ret = pos n }, r)
read_loop (suc fuel) n r =
    let (g, r') = my_read r in
    let rest = read_loop fuel (n + 1) r' in
    if goes_on g then (add_char g rest.0, rest.1) else (end_line n g, r')

-- `readline`, once `pthread_once` and the thread's `rline_t` have been set up.
unfoldable pub readline : ℕ → Reader → Line × Reader
unfolding read_loop
readline maxlen r = read_loop (maxlen - 1) 1 r

-- An answer to `write`: `k + 1` characters; or none or -1, where `errno` is `EINTR` or is not.
pub data Write : Type 0 where
  wrote : (k : ℕ) → Write
  write_interrupted write_failed : Write

-- What `writen` returns (`none` while the answers do not end it) and what has been written.
pub writen_loop : Text → ℕ → List Write → Option ℤ × Text
writen_loop [] n ws = (some (pos n), [])
writen_loop (c ∷ cs) n [] = (none, [])
writen_loop (c ∷ cs) n (write_interrupted ∷ ws) = writen_loop (c ∷ cs) n ws
writen_loop (c ∷ cs) n (write_failed ∷ ws) = (some (negsuc 0), [])
writen_loop (c ∷ cs) n (wrote k ∷ ws) =
    let rest = writen_loop (drop k cs) n ws in (rest.0, c ∷ take k cs ++ rest.1)

pub writen : Text → List Write → Option ℤ × Text
unfolding writen_loop
writen s ws = writen_loop s (length s) ws
