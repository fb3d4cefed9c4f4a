-- ===== src/Io/Readn.antt =====
-- src/io.c: `readn`. Its counters are of type `size_t`, here of 64 bits, and so is what it keeps of the
-- result of `read`. A position in the buffer is its distance from `vptr`, which wraps around too.
pub mod Whole
use netvizd.Common.{
  take-all, ℕ, ◌%◌, zero, suc, ◌+◌, ◌-◌, ◌<◌, ◌≤◌, ◌≡◌, refl, ap, sym, ◌∙◌, Bool, true, false, List,
  [], ◌∷◌, ◌++◌, ◌==◌, ltb, if◌then◌else◌, length, take, drop, arith, Bool-cases, inl, inr,
}
use netvizd.Common.Int.{ℤ, pos, negsuc}
use netvizd.Common.Text.{Text}
use netvizd.Io.{Read, chunk, interrupted, broken}

-- 2 ^ 64
abbrev pub size_range : ℕ
size_range = 18446744073709551616

-- `size_t` arithmetic
abbrev pub sub_size : ℕ → ℕ → ℕ
sub_size a b = (a + size_range - b) % size_range

abbrev pub add_size : ℕ → ℕ → ℕ
add_size a b = (a + b) % size_range

-- `ssize_t` from `size_t`
abbrev pub ssize_of : ℕ → ℤ
ssize_of a = if ltb a 9223372036854775808 then pos a else negsuc (size_range - 1 - a)

-- `ptr` is a distance from `vptr`; `writes` holds what was stored, and where, in order.
pub record ReadN : Type 0 where
  pub nleft : ℕ
  pub ptr : ℕ
  pub writes : List (ℕ × Text)

-- `read` has returned `nread`, and has stored the characters `cs`.
pub advance : ℕ → Text → ReadN → ReadN
advance nread cs s = record {
  nleft = sub_size s.nleft nread;
  ptr = add_size s.ptr nread;
  writes = s.writes ++ (s.ptr, cs) ∷ [];
}

-- -1 as a `size_t`: the test for a negative number does not hold, nor that for 0.
pub slip : ReadN → ReadN
slip s = record {
  nleft = sub_size s.nleft (size_range - 1);
  ptr = add_size s.ptr (size_range - 1);
  writes = s.writes;
}

-- The loop. An answer of characters gives at most `nleft` of them.
pub readn_loop : List Read → ReadN → ReadN
unfolding advance slip
readn_loop [] s = s
readn_loop (chunk [] ∷ rs) s = s
readn_loop (chunk (c ∷ cs) ∷ rs) s =
    let got = take s.nleft (c ∷ cs) in
    let rest = readn_loop rs (advance (length got) got s) in if s.nleft == 0 then s else rest
readn_loop (interrupted ∷ rs) s =
    let rest = readn_loop rs (slip s) in if s.nleft == 0 then s else rest
readn_loop (broken ∷ rs) s = let rest = readn_loop rs (slip s) in if s.nleft == 0 then s else rest

-- What is returned, and what was stored.
unfoldable pub readn : ℕ → List Read → ℤ × List (ℕ × Text)
unfolding readn_loop
readn n rs =
    let s = readn_loop rs (record { nleft = n; ptr = 0; writes = [] }) in
    (ssize_of (sub_size n s.nleft), s.writes)

-- An error, or a call that a signal has cut off.
abbrev pub IsError : Read → Type 0
IsError (chunk cs) = ⊥
IsError interrupted = Unit {0}
IsError broken = Unit {0}

-- The loop at the buffer's start goes one place back.
slipped :
    (n : ℕ)
    → n < 9223372036854775808
    → slip (record { nleft = n; ptr = 0; writes = [] })
      ≡ record { nleft = n + 1; ptr = size_range - 1; writes = [] }
unfolding slip
slipped n k =
    let left : sub_size n (size_range - 1) ≡ n + 1 = omega arith in
    ap (λ (l : ℕ). record { nleft = l; ptr = size_range - 1; writes = [] }) left

after_slip :
    (n c : ℕ) (cs : Text)
    → length cs < n
    → n < 9223372036854775808
    → readn_loop (chunk (c ∷ cs) ∷ []) (record { nleft = n + 1; ptr = size_range - 1; writes = [] })
      ≡ record { nleft = n - length cs; ptr = length cs; writes = (size_range - 1, c ∷ cs) ∷ [] }
unfolding readn_loop advance
after_slip n c cs l k =
    let whole = take-all (n + 1) (c ∷ cs) (omega arith) in
    let more : (n + 1 == 0) ≡ false = ground arith in
    let left : sub_size (n + 1) (length (c ∷ cs)) ≡ n - length cs = omega arith in
    let at : add_size (size_range - 1) (length (c ∷ cs)) ≡ length cs = omega arith in
    rw (whole, more, left, at) refl

counted : (n m : ℕ) → m < n → n < 9223372036854775808 → ssize_of (sub_size n (n - m)) ≡ pos m
counted n m l k = ground arith

error_loop :
    (n : ℕ) (a : Read) (c : ℕ) (cs : Text)
    → IsError a
    → length cs < n
    → n < 9223372036854775808
    → readn_loop (a ∷ chunk (c ∷ cs) ∷ []) (record { nleft = n; ptr = 0; writes = [] })
      ≡ record { nleft = n - length cs; ptr = length cs; writes = (size_range - 1, c ∷ cs) ∷ [] }
unfolding readn_loop
error_loop n (chunk xs) c cs h l k = absurd h
error_loop n interrupted c cs h l k =
    let more : (n == 0) ≡ false = ground arith in
    rw (readn_loop, more)
      (ap (readn_loop (chunk (c ∷ cs) ∷ [])) (slipped n k) ∙ after_slip n c cs l k)
error_loop n broken c cs h l k =
    let more : (n == 0) ≡ false = ground arith in
    rw (readn_loop, more)
      (ap (readn_loop (chunk (c ∷ cs) ∷ [])) (slipped n k) ∙ after_slip n c cs l k)

-- After an error or an interrupted call at the start, `readn` neither returns -1 nor asks again for the same
-- bytes: the characters that come next are stored from one place before the buffer, and the count that is
-- returned is one less than what was stored.
pub readn-slips :
    (n : ℕ) (a : Read) (c : ℕ) (cs : Text)
    → IsError a
    → length cs < n
    → n < 9223372036854775808
    → readn n (a ∷ chunk (c ∷ cs) ∷ []) ≡ (pos (length cs), (size_range - 1, c ∷ cs) ∷ [])
unfolding readn
readn-slips n a c cs h l k =
    ap (λ (s : ReadN). (ssize_of (sub_size n s.nleft), s.writes)) (error_loop n a c cs h l k)
    ∙ ap (λ (z : ℤ). (z, (size_range - 1, c ∷ cs) ∷ [])) (counted n (length cs) l k)
