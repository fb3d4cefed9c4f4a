-- ===== src/Io/Readn/Whole.antt =====
-- src/io.c: `readn` where no call of `read` fails.
use mathlib.Core.List.{append-nil, append_assoc}
use netvizd.Common.{
  subst, length-append, ℕ, zero, suc, ◌+◌, ◌-◌, ◌<◌, ◌≤◌, ◌≡◌, refl, ap, sym, ◌∙◌, List, [], ◌∷◌,
  ◌++◌, ◌==◌, length, take, arith, Bool-cases, inl, inr, length-take,
}
use netvizd.Common.Int.{pos}
use netvizd.Common.Text.{Text}
use netvizd.Io.{Read, chunk, interrupted, broken}
use netvizd.Io.Readn.{sub_size, add_size, ssize_of, ReadN, advance, readn_loop, readn}

abbrev pub IsCalm : List Read → Type 0
IsCalm [] = Unit {0}
IsCalm (chunk cs ∷ rs) = IsCalm rs
IsCalm (interrupted ∷ rs) = ⊥
IsCalm (broken ∷ rs) = ⊥

-- The characters up to the end of the input.
abbrev pub arriving : List Read → Text
arriving [] = []
arriving (chunk [] ∷ rs) = []
arriving (chunk (c ∷ cs) ∷ rs) = (c ∷ cs) ++ arriving rs
arriving (interrupted ∷ rs) = []
arriving (broken ∷ rs) = []

-- The writes spell the text `t` from the place `p` on, without a gap.
abbrev pub Spells : ℕ → List (ℕ × Text) → Text → Type 0
Spells p [] t = t ≡ []
Spells p ((q, cs) ∷ ws) t =
    (q ≡ p) × (rest : Text) × (t ≡ cs ++ rest) × Spells (p + length cs) ws rest

-- The loop from `s` on: it has stored `t`.
record Stores (s : ReadN) (t : Text) (s' : ReadN) : Type 0 where
  added : List (ℕ × Text)
  writes : s'.writes ≡ s.writes ++ added
  spelled : Spells s.ptr added t
  left : s'.nleft + length t ≡ s.nleft

take-more :
    (n : ℕ) (cs ds : Text) → take n (cs ++ ds) ≡ take n cs ++ take (n - length (take n cs)) ds
take-more zero cs ds = refl
take-more (suc n) [] ds =
    let same : suc n ≡ suc n - 0 = omega arith in ap (λ (m : ℕ). take m ds) same
take-more (suc n) (c ∷ cs) ds =
    let same : n - length (take n cs) ≡ suc n - length (take (suc n) (c ∷ cs)) = omega arith in
    ap (λ (t : Text). c ∷ t) (take-more n cs ds ∙ ap (λ (m : ℕ). take n cs ++ take m ds) same)

take-nil : (n : ℕ) → take {A = ℕ} n [] ≡ []
take-nil zero = refl
take-nil (suc n) = refl

take-none : (n : ℕ) (t : Text) → n ≡ 0 → take n t ≡ []
take-none zero t e = refl
take-none (suc n) t e = absurd (omega arith)

Stores-none : (s : ReadN) (t : Text) → t ≡ [] → Stores s t s
Stores-none s t e = record {
  added = [];
  writes = sym (append-nil s.writes);
  spelled = e;
  left = omega (arith, ap length e);
}

advance-Stores :
    (s s' : ReadN) (got t : Text)
    → length got ≤ s.nleft
    → s.nleft + s.ptr < 9223372036854775808
    → Stores (advance (length got) got s) t s'
    → Stores s (got ++ t) s'
unfolding advance
advance-Stores s s' got t l k r = record {
  added = (s.ptr, got) ∷ r.added;
  writes = r.writes ∙ append_assoc s.writes ((s.ptr, got) ∷ []) r.added;
  spelled = (
    refl,
    t,
    refl,
    subst (λ (p : ℕ). Spells p r.added t)
        (let at : add_size s.ptr (length got) ≡ s.ptr + length got = omega arith in at) r.spelled,
  );
  left = omega (arith, r.left, length-append got t);
}

readn_loop-Stores :
    (rs : List Read) (s : ReadN)
    → IsCalm rs
    → s.nleft + s.ptr < 9223372036854775808
    → Stores s (take s.nleft (arriving rs)) (readn_loop rs s)
unfolding readn_loop
readn_loop-Stores [] s h k = Stores-none s _ (take-nil s.nleft)
readn_loop-Stores (chunk [] ∷ rs) s h k = Stores-none s _ (take-nil s.nleft)
readn_loop-Stores (chunk (c ∷ cs) ∷ rs) s h k =
    let got = take s.nleft (c ∷ cs) in
    let size = length-take s.nleft (c ∷ cs) in
    let left : sub_size s.nleft (length got) ≡ s.nleft - length got = omega (arith, size) in
    let at : add_size s.ptr (length got) ≡ s.ptr + length got = omega (arith, size) in
    let rest = readn_loop-Stores rs (advance (length got) got s) h (omega (arith, size)) in
    elim (Bool-cases (s.nleft == 0)) [
      | inl e ↦ rw e (Stores-none s _ (take-none s.nleft ((c ∷ cs) ++ arriving rs) (ground arith)))
      | inr e ↦ rw e (
          subst (λ (t : Text). Stores s t (readn_loop rs (advance (length got) got s)))
            (ap (λ (m : ℕ). got ++ take m (arriving rs)) left
              ∙ sym (take-more s.nleft (c ∷ cs) (arriving rs)))
            (advance-Stores s _ got _ (omega (arith, size)) k rest))
    ]
readn_loop-Stores (interrupted ∷ rs) s h k = absurd h
readn_loop-Stores (broken ∷ rs) s h k = absurd h

small : (n : ℕ) → n < 9223372036854775808 → ssize_of n ≡ pos n
small n h = ground arith

-- Where no call of `read` fails, `readn` returns the number of the characters that it has stored: they are
-- the first `n` that arrive, or all up to the end of the input, one behind the other from the start of
-- the buffer.
pub readn-whole :
    (n : ℕ) (rs : List Read)
    → IsCalm rs
    → n < 9223372036854775808
    → ((readn n rs).0 ≡ pos (length (take n (arriving rs))))
      × Spells 0 (readn n rs).1 (take n (arriving rs))
unfolding readn
readn-whole n rs h k =
    let s : ReadN = record { nleft = n; ptr = 0; writes = [] } in
    let r = readn_loop-Stores rs s h (omega arith) in
    let size = length-take n (arriving rs) in
    let left : sub_size n (readn_loop rs s).nleft ≡ length (take n (arriving rs)) =
      omega (arith, r.left) in
    (
      ap ssize_of left ∙ small (length (take n (arriving rs))) (omega (arith, size)),
      subst (λ ws. Spells 0 ws (take n (arriving rs))) (sym r.writes) r.spelled,
    )
