-- ===== src/Io/Shrinks.antt =====
-- src/io.c: `my_read` and `readline` use up the input, whatever the kernel answers.
use netvizd.Common.{
  ℕ, zero, suc, ◌+◌, ◌≤◌, ◌≡◌, refl, ◌⊎◌, inl, inr, true, Bool-cases, List, [], ◌∷◌, ◌++◌, arith,
  length,
}
use netvizd.Common.Int.{pos, negsuc}
use netvizd.Common.Text.{Text}
use netvizd.Io.{
  Read, chunk, interrupted, broken, Reader, Got, got, got_end, got_error, fill, take_char, my_read,
  Line, end_line, goes_on, read_loop, readline,
}
use netvizd.Io.Lines.{incoming, pending}

abbrev used : Got → ℕ
used (got c) = 1
used got_end = 0
used got_error = 0

abbrev Shrinks : Text → Got × Reader → Type 0
Shrinks s (g, r) = length (pending r) + used g ≤ length s

fill-Shrinks : (rs : List Read) → Shrinks (incoming rs) (fill rs)
unfolding fill
fill-Shrinks [] = omega arith
fill-Shrinks (chunk [] ∷ rs) = omega arith
fill-Shrinks (chunk (c ∷ cs) ∷ rs) = omega arith
fill-Shrinks (interrupted ∷ rs) = fill-Shrinks rs
fill-Shrinks (broken ∷ rs) = omega arith

take_char-Shrinks : (buf : Text) (rs : List Read) → Shrinks (buf ++ incoming rs) (take_char buf rs)
unfolding take_char
take_char-Shrinks [] rs = fill-Shrinks rs
take_char-Shrinks (c ∷ cs) rs = omega arith

my_read-Shrinks : (r : Reader) → Shrinks (pending r) (my_read r)
unfolding my_read
my_read-Shrinks r = take_char-Shrinks r.rl_buf r.answers

-- The loop never leaves more than there was.
read_loop-le : (k n : ℕ) (r : Reader) → length (pending (read_loop k n r).1) ≤ length (pending r)
unfolding read_loop
read_loop-le zero n r = omega arith
read_loop-le (suc k) n r =
    let rest = read_loop-le k (n + 1) (my_read r).1 in
    let first = my_read-Shrinks r in
    elim (Bool-cases (goes_on (my_read r).0)) [
      | inl e ↦ rw e (omega arith)
      | inr e ↦ rw e (omega arith)
    ]

-- What `readline` can have come to.
abbrev pub UsesUp : Reader → Line × Reader → Type 0
UsesUp r (l, r') =
    ((l.ret ≡ pos 0) ⊎ (l.ret ≡ negsuc 0)) ⊎ (length (pending r') + 1 ≤ length (pending r))

first_end : (r r' : Reader) (g : Got) → Shrinks (pending r) (g, r') → UsesUp r (end_line 1 g, r')
unfolding end_line
first_end r r' (got c) h = inr (omega arith)
first_end r r' got_end h = inl (inl refl)
first_end r r' got_error h = inl (inr refl)

goes_on-used : (g : Got) → goes_on g ≡ true → used g ≡ 1
unfolding goes_on
goes_on-used (got c) h = refl
goes_on-used got_end h = cc
goes_on-used got_error h = cc

first_loop : (k : ℕ) (r : Reader) → UsesUp r (read_loop (suc k) 1 r)
unfolding read_loop
first_loop k r =
    let rest = read_loop-le k 2 (my_read r).1 in
    let first = my_read-Shrinks r in
    elim (Bool-cases (goes_on (my_read r).0)) [
      | inl e ↦ let one = goes_on-used (my_read r).0 e in rw e (inr (omega arith))
      | inr e ↦ rw e (first_end r (my_read r).1 (my_read r).0 first)
    ]

-- Whatever the kernel answers, `readline` returns 0 or -1, or has used up a character of the input.
pub readline-UsesUp : (r : Reader) → UsesUp r (readline 1023 r)
unfolding readline
readline-UsesUp r = first_loop 1021 r
