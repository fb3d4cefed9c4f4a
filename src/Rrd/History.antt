-- ===== src/Rrd/History.antt =====
-- src/plugins/sensor/rrd.c: the outputs of the commands of a beat, taken together.
use netvizd.Common.{
  ℕ, zero, suc, ◌-◌, ◌≡◌, refl, ap, ◌∙◌, Bool, true, false, List, [], ◌∷◌, ◌++◌, Option, none, some,
  if◌then◌else◌, length, drop, arith, length-append,
}
use netvizd.Common.Int.{ℤ}
use netvizd.Common.Text.{Text, until_nul}
use netvizd.Io.{Read, chunk, interrupted, broken}
use netvizd.Io.Lines.{IsSteady, incoming}
use netvizd.Rrd.{words, Outside, size_of}
use netvizd.Rrd.Columns.{reading_of, add_reading, readings, last_time}

-- Every command can be started, and no read of its output fails, though calls may be interrupted.
pub record IsSound {V : Type 0} (O : Outside V) : Type 0 where
  pub output : Text → O.World → List Read
  pub starts : (s : Text) (w : O.World) → (O.popen s w).0 ≡ some (output s w)
  pub steady : (s : Text) (w : O.World) → IsSteady (output s w)

pub size_of-incoming : (rs : List Read) → size_of rs ≡ length (incoming rs)
size_of-incoming [] = refl
size_of-incoming (chunk s ∷ rs) = omega (arith, length-append s (incoming rs), size_of-incoming rs)
size_of-incoming (interrupted ∷ rs) = size_of-incoming rs
size_of-incoming (broken ∷ rs) = size_of-incoming rs

zero_minus : (n : ℕ) → 0 ≡ 0 - n
zero_minus n = omega arith

minus_zero : (n : ℕ) → n ≡ n - 0
minus_zero n = omega arith

minus_suc : (n m : ℕ) → n - m ≡ suc n - suc m
minus_suc n m = omega arith

drop-append : (n : ℕ) (ls ms : List Text) → drop n (ls ++ ms) ≡ drop n ls ++ drop (n - length ls) ms
drop-append zero ls ms = ap (λ (k : ℕ). ls ++ drop k ms) (zero_minus (length ls))
drop-append (suc n) [] ms = ap (λ (k : ℕ). drop k ms) (minus_zero (suc n))
drop-append (suc n) (l ∷ ls) ms =
    drop-append n ls ms ∙ ap (λ (k : ℕ). drop n ls ++ drop k ms) (minus_suc n (length ls))

add_reading-append :
    (o : Option (ℤ × Text)) (rs us : List (ℤ × Text))
    → add_reading o (rs ++ us) ≡ add_reading o rs ++ us
add_reading-append none rs us = refl
add_reading-append (some r) rs us = refl

readings-append :
    (column : ℤ) (ls ms : List Text)
    → readings column (ls ++ ms) ≡ readings column ls ++ readings column ms
readings-append column [] ms = refl
readings-append column (l ∷ ls) ms =
    let o = reading_of column (words (until_nul l)) in
    ap (add_reading o) (readings-append column ls ms)
    ∙ add_reading-append o (readings column ls) (readings column ms)

pub last_time-append :
    (rs us : List (ℤ × Text)) (t : ℤ) → last_time (rs ++ us) t ≡ last_time us (last_time rs t)
last_time-append [] us t = refl
last_time-append ((u, word) ∷ rs) us t = last_time-append rs us u

pub ap-if {ℓ κ} :
    {A : Type ℓ} {B : Type κ} (f : A → B) (c : Bool) (x y : A)
    → f (if c then x else y) ≡ (if c then f x else f y)
ap-if f true x y = refl
ap-if f false x y = refl

pub if-same {ℓ} : {A : Type ℓ} (c : Bool) (x : A) → (if c then x else x) ≡ x
if-same true x = refl
if-same false x = refl

-- The readings that all the output of a beat holds: it is one table, with one header of two lines.
abbrev pub all_readings : ℤ → List Text → List (ℤ × Text)
all_readings column ls = readings column (drop 2 ls)

pub all_readings-append :
    (column : ℤ) (ls ms : List Text)
    → all_readings column (ls ++ ms)
      ≡ all_readings column ls ++ readings column (drop (2 - length ls) ms)
all_readings-append column ls ms =
    ap (readings column) (drop-append 2 ls ms)
    ∙ readings-append column (drop 2 ls) (drop (2 - length ls) ms)
