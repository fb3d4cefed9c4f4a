-- ===== src/Config/File/Names.antt =====
-- src/plugins/config/file.c: what the searches by name find.
use netvizd.Common.{
  ℕ, suc, ◌+◌, ◌≡◌, refl, ap, ◌∙◌, ◌⊎◌, inl, inr, Bool, true, false, ◌||◌, List, [], ◌∷◌, map,
  Option, none, some, arith, if◌then◌else◌, get_elem?,
}
use netvizd.Common.Int.{ℤ, pos, negsuc}
use netvizd.Common.Text.{Text}
use netvizd.Config.{NvConf, Inst}
use netvizd.Config.File.{matches, find_named, link_insts}

-- Some name of the list matches.
abbrev pub named : Text → List Text → Bool
named want [] = false
named want (n ∷ ns) = matches want n || named want ns

-- A pointer to an element of a list whose name matches.
abbrev pub PointsTo : Text → List Text → Option ℕ → Type 0
PointsTo want names ptr =
    (i : ℕ) × (n : Text) × (ptr ≡ some i) × (get_elem? names i ≡ some n) × (matches want n ≡ true)

-- The outcome of a search from position `i` on: nothing matched and nothing was set, or the pointer
-- leads to a match.
abbrev pub Found : Text → ℕ → List Text → Option ℕ → ℤ → Option ℕ × ℤ → Type 0
Found want i names ptr err r =
    ((named want names ≡ false) × (r ≡ (ptr, err)))
    ⊎ ((j : ℕ) × (n : Text) × (get_elem? names j ≡ some n)
        × (matches want n ≡ true)
        × (r ≡ (some (i + j), pos 0)))

Found-cons :
    (want n : Text) (i : ℕ) (names : List Text) (ptr : Option ℕ) (err : ℤ) (r : Option ℕ × ℤ)
    (hit : Bool)
    → matches want n ≡ hit
    → Found want (i + 1) names (if hit then some i else ptr) (if hit then pos 0 else err) r
    → Found want i (n ∷ names) ptr err r
Found-cons want n i names ptr err r true e (inl (none_left, done)) =
    inr (0, n, refl, e, done ∙ ap (λ (k : ℕ). (some k, pos 0)) (omega arith))
Found-cons want n i names ptr err r false e (inl (none_left, done)) =
    inl (ground (arith, none_left), done)
Found-cons want n i names ptr err r hit e (inr (j, m, at, ok, done)) =
    inr (suc j, m, at, ok, done ∙ ap (λ (k : ℕ). (some k, pos 0)) (omega arith))

pub find_named-Found :
    {A : Type 0} (name : A → Text) (want : Text) (i : ℕ) (cs : List A) (ptr : Option ℕ) (err : ℤ)
    → Found want i (map name cs) ptr err (find_named name want i cs ptr err)
unfolding find_named
find_named-Found name want i [] ptr err = inl (refl, refl)
find_named-Found name want i (c ∷ cs) ptr err =
    let hit = matches want (name c) in
    Found-cons want (name c) i (map name cs) ptr err _ hit refl (
      find_named-Found name want (i + 1) cs (if hit then some i else ptr)
        (if hit then pos 0 else err))

pub link_insts-Found :
    (want : Text) (d i : ℕ) (cs : List Inst) (ptr : Option ℕ) (err : ℤ)
    → Found want i
        (map (λ c. c.name) cs)
        ptr
        err
        ((link_insts want d i cs ptr err).ptr, (link_insts want d i cs ptr err).err)
unfolding link_insts
link_insts-Found want d i [] ptr err = inl (refl, refl)
link_insts-Found want d i (c ∷ cs) ptr err =
    let hit = matches want c.name in
    Found-cons want c.name i (map (λ c. c.name) cs) ptr err _ hit refl (
      link_insts-Found want d (i + 1) cs (if hit then some i else ptr) (if hit then pos 0 else err))

-- A search that starts with no pointer and the error flag set ends without the flag only if it found
-- something.
pub PointsTo-of_Found :
    (want : Text) (names : List Text) (r : Option ℕ × ℤ)
    → Found want 0 names none (negsuc 0) r
    → r.1 ≡ pos 0
    → PointsTo want names r.0
PointsTo-of_Found want names r (inl (no_match, e)) z = absurd (ground arith)
PointsTo-of_Found want names r (inr (j, n, at, ok, e)) z =
    (j, n, ap (λ (t : Option ℕ × ℤ). t.0) e ∙ ap some (omega arith), at, ok)

-- The fields of an instance that the loop over the data sets leaves alone.
abbrev pub core : Inst → Text × Option ℕ × List NvConf
core c = (c.name, c.plug, c.conf)

pub link_insts-core :
    (want : Text) (d i : ℕ) (cs : List Inst) (ptr : Option ℕ) (err : ℤ)
    → map core (link_insts want d i cs ptr err).insts ≡ map core cs
unfolding link_insts
link_insts-core want d i [] ptr err = refl
link_insts-core want d i (c ∷ cs) ptr err =
    let hit = matches want c.name in
    ground (
      arith,
      link_insts-core want d (i + 1) cs (if hit then some i else ptr) (if hit then pos 0 else err),
    )
