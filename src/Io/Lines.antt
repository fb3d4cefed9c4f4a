-- ===== src/Io/Lines.antt =====
-- src/io.c: `readline` gives the lines of the input, however the kernel cuts the input up.
use netvizd.Common.{
  ℕ, zero, suc, ◌+◌, ◌-◌, ◌≤◌, ◌<◌, ◌≡◌, refl, sym, ap, subst, ◌∙◌, Bool, true, false, List, [],
  ◌∷◌, ◌++◌, some, arith, ◌==◌, if◌then◌else◌, length, drop, take-append-drop, length-drop,
}
use netvizd.Common.Int.{pos}
use netvizd.Common.Text.{Text}
use netvizd.Io.{
  Read, chunk, interrupted, broken, Reader, Got, got, got_end, fill, take_char, my_read, Line,
  end_line, goes_on, add_char, read_loop, readline, Write, wrote, write_interrupted, write_failed,
  writen_loop, writen,
}

-- No error, and no end before the last answer.
abbrev pub IsSteady : List Read → Type 0
IsSteady [] = Unit {0}
IsSteady (chunk [] ∷ rs) = ⊥
IsSteady (chunk (c ∷ cs) ∷ rs) = IsSteady rs
IsSteady (interrupted ∷ rs) = IsSteady rs
IsSteady (broken ∷ rs) = ⊥

abbrev pub incoming : List Read → Text
incoming [] = []
incoming (chunk s ∷ rs) = s ++ incoming rs
incoming (_ ∷ rs) = incoming rs

-- The input that has not been read.
abbrev pub pending : Reader → Text
pending r = r.rl_buf ++ incoming r.answers

-- What `my_read` gives: the next character, or the end.
abbrev IsNext : Text → Got × Reader → Type 0
IsNext [] (g, r) = (g ≡ got_end) × (pending r ≡ []) × IsSteady r.answers
IsNext (c ∷ t) (g, r) = (g ≡ got c) × (pending r ≡ t) × IsSteady r.answers

fill-IsNext : (rs : List Read) → IsSteady rs → IsNext (incoming rs) (fill rs)
unfolding fill
fill-IsNext [] h = (refl, refl, tt)
fill-IsNext (chunk [] ∷ rs) h = absurd h
fill-IsNext (chunk (c ∷ cs) ∷ rs) h = (refl, refl, h)
fill-IsNext (interrupted ∷ rs) h = fill-IsNext rs h
fill-IsNext (broken ∷ rs) h = absurd h

take_char-IsNext :
    (buf : Text) (rs : List Read) → IsSteady rs → IsNext (buf ++ incoming rs) (take_char buf rs)
unfolding take_char
take_char-IsNext [] rs h = fill-IsNext rs h
take_char-IsNext (c ∷ cs) rs h = (refl, refl, h)

my_read-IsNext : (r : Reader) → IsSteady r.answers → IsNext (pending r) (my_read r)
unfolding my_read
my_read-IsNext r h = take_char-IsNext r.rl_buf r.answers h

-- The next line of a text, of at most `n` characters, with its newline; and the text behind it.
abbrev pub next_line : ℕ → Text → Text × Text
next_line zero t = ([], t)
next_line (suc n) [] = ([], [])
next_line (suc n) (c ∷ t) =
    let rest = next_line n t in if c == b'\n' then (c ∷ [], t) else (c ∷ rest.0, rest.1)

-- The value that `readline` returns for the counter `n` and at most `k` further characters of a text.
abbrev pub line_ret : ℕ → ℕ → Text → ℕ
line_ret zero n t = n
line_ret (suc k) n [] = if n == 1 then 0 else n
line_ret (suc k) n (c ∷ t) = let rest = line_ret k (n + 1) t in if c == b'\n' then n else rest

record IsRead (k n : ℕ) (t : Text) (out : Line × Reader) : Type 0 where
  stored : out.0.stored ≡ (next_line k t).0
  ret : out.0.ret ≡ pos (line_ret k n t)
  rest : pending out.1 ≡ (next_line k t).1
  steady : IsSteady out.1.answers

-- A round of the loop, for what `my_read` gave.
abbrev round_of : ℕ → ℕ → Got → Reader → Line × Reader
round_of k n g r =
    let rest = read_loop k (n + 1) r in
    if goes_on g then (add_char g rest.0, rest.1) else (end_line n g, r)

round-end :
    (k n : ℕ) (r : Reader)
    → pending r ≡ []
    → IsSteady r.answers
    → IsRead (suc k) n [] (round_of k n got_end r)
unfolding goes_on end_line
round-end k n r p h = record { stored = refl; ret = ground arith; rest = p; steady = h }

round-got :
    (k n c : ℕ) (t : Text) (r : Reader) (b : Bool)
    → (c == b'\n') ≡ b
    → pending r ≡ t
    → IsSteady r.answers
    → IsRead k (n + 1) t (read_loop k (n + 1) r)
    → IsRead (suc k) n (c ∷ t) (round_of k n (got c) r)
unfolding goes_on end_line add_char
round-got k n c t r true e p h i =
    rw e (record { stored = rw e refl; ret = rw e refl; rest = rw e p; steady = h })
round-got k n c t r false e p h i = rw e (record {
  stored = rw e (ap (λ (u : Text). c ∷ u) i.stored);
  ret = rw e i.ret;
  rest = rw e i.rest;
  steady = i.steady;
})

read_loop-IsRead :
    (k n : ℕ) (t : Text) (r : Reader)
    → pending r ≡ t
    → IsSteady r.answers
    → IsRead k n t (read_loop k n r)
unfolding read_loop
read_loop-IsRead zero n t r e h = record { stored = refl; ret = refl; rest = e; steady = h }
read_loop-IsRead (suc k) n [] r e h =
    let (g, p, s) = subst (λ (u : Text). IsNext u (my_read r)) e (my_read-IsNext r h) in
    subst (λ (o : Got). IsRead (suc k) n [] (round_of k n o (my_read r).1)) (sym g)
      (round-end k n (my_read r).1 p s)
read_loop-IsRead (suc k) n (c ∷ t) r e h =
    let (g, p, s) = subst (λ (u : Text). IsNext u (my_read r)) e (my_read-IsNext r h) in
    subst (λ (o : Got). IsRead (suc k) n (c ∷ t) (round_of k n o (my_read r).1)) (sym g)
      (round-got k n c t (my_read r).1 (c == b'\n') refl p s
        (read_loop-IsRead k (n + 1) t (my_read r).1 p s))

-- The next line ends in its newline.
abbrev pub ends_line : ℕ → Text → Bool
ends_line zero t = false
ends_line (suc k) [] = false
ends_line (suc k) (c ∷ t) = let rest = ends_line k t in if c == b'\n' then true else rest

-- 0 at the end of the input; else the number of characters stored, and one more unless the line ends in
-- its newline.
abbrev pub ret_of : ℕ → Text → ℕ
ret_of k [] = 0
ret_of k (c ∷ t) = length (next_line k (c ∷ t)).0 + (if ends_line k (c ∷ t) then 0 else 1)

line_ret-later :
    (k n : ℕ) (t : Text)
    → 2 ≤ n
    → line_ret k n t + 1 ≡ n + length (next_line k t).0 + (if ends_line k t then 0 else 1)
line_ret-later zero n t h = omega arith
line_ret-later (suc k) n [] h = ground arith
line_ret-later (suc k) n (c ∷ t) h =
    let rest = line_ret-later k (n + 1) t (omega arith) in ground arith

line_ret-first : (k : ℕ) (t : Text) → line_ret (suc k) 1 t ≡ ret_of (suc k) t
line_ret-first k [] = refl
line_ret-first k (c ∷ t) = let rest = line_ret-later k 2 t (omega arith) in ground arith

line_ret-ret_of : (k : ℕ) (t : Text) → 1 ≤ k → line_ret k 1 t ≡ ret_of k t
line_ret-ret_of zero t h = absurd (omega arith)
line_ret-ret_of (suc k) t h = line_ret-first k t

-- From an input without errors, whatever its cuts and interruptions, `readline` stores the next line of
-- at most `maxlen - 1` characters, and what is left to read is the input behind that line, without an
-- error still. It returns the value of its counter: 0 at the end of the input, the number of characters
-- stored for a line that ends in its newline, and one more than that number for any other line.
pub readline-next_line :
    (maxlen : ℕ) (r : Reader)
    → 1 < maxlen
    → IsSteady r.answers
    → ((readline maxlen r).0.stored ≡ (next_line (maxlen - 1) (pending r)).0)
      × (pending (readline maxlen r).1 ≡ (next_line (maxlen - 1) (pending r)).1)
      × IsSteady (readline maxlen r).1.answers
      × ((readline maxlen r).0.ret ≡ pos (ret_of (maxlen - 1) (pending r)))
unfolding readline
readline-next_line maxlen r h s =
    let i = read_loop-IsRead (maxlen - 1) 1 (pending r) r refl s in
    (
      i.stored,
      i.rest,
      i.steady,
      i.ret ∙ ap pos (line_ret-ret_of (maxlen - 1) (pending r) (omega arith)),
    )

-- How many answers write something; a failure is none, and ends the count.
abbrev pub progress : List Write → ℕ
progress [] = 0
progress (wrote k ∷ ws) = progress ws + 1
progress (write_interrupted ∷ ws) = progress ws
progress (write_failed ∷ ws) = 0

writen_loop-all :
    (s : Text) (n : ℕ) (ws : List Write)
    → length s ≤ progress ws
    → writen_loop s n ws ≡ (some (pos n), s)
unfolding writen_loop
writen_loop-all [] n ws h = refl
writen_loop-all (c ∷ cs) n [] h = absurd (omega arith)
writen_loop-all (c ∷ cs) n (write_interrupted ∷ ws) h = writen_loop-all (c ∷ cs) n ws h
writen_loop-all (c ∷ cs) n (write_failed ∷ ws) h = absurd (omega arith)
writen_loop-all (c ∷ cs) n (wrote k ∷ ws) h =
    rw (writen_loop-all (drop k cs) n ws (omega (arith, length-drop k cs)), take-append-drop k cs)
      refl

-- Whatever the cuts and interruptions: once as many writes as there are characters have written
-- something before any failure, `writen` has returned that number, and written the characters, each once
-- and in order.
pub writen-all :
    (s : Text) (ws : List Write) → length s ≤ progress ws → writen s ws ≡ (some (pos (length s)), s)
unfolding writen
writen-all s ws h = writen_loop-all s (length s) ws h
