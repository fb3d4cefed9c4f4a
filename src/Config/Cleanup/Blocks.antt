-- ===== src/Config/Cleanup/Blocks.antt =====
-- src/plugins/config/file.c: the blocks of memory that the clean-up frees.
use netvizd.Common.{
  ◌≡◌, ◌≢◌, refl, ◌∙◌, ◌⊎◌, inl, inr, Bool, true, false, List, [], ◌∷◌, ◌++◌, arith, ◌==◌,
  Bool-cases,
}
use netvizd.NvList.{Ptr, null, update}
use netvizd.NvList.Ring.{has}
use netvizd.Config.Cleanup.{Memory, free_block, free_blocks}
use netvizd.Config.Cleanup.Steps.{Finishes, finishes, Finishes-bind, Finishes-mono}

-- Each pointer is `NULL`, or a block that no later pointer names.
abbrev pub Freeable : (Ptr → Bool) → List Ptr → Type 0
Freeable b [] = Unit {0}
Freeable b (p ∷ ps) = ((p ≡ null) ⊎ ((b p ≡ true) × (has p ps ≡ false))) × Freeable b ps

Freeable-update :
    (b : Ptr → Bool) (p : Ptr) (ps : List Ptr)
    → has p ps ≡ false
    → Freeable b ps
    → Freeable (update b p false) ps
Freeable-update b p [] o k = tt
Freeable-update b p (q ∷ qs) o (inl e, k) = (inl e, Freeable-update b p qs (ground arith) k)
Freeable-update b p (q ∷ qs) o (inr (e, f), k) =
    (inr (ground arith, f), Freeable-update b p qs (ground arith) k)

-- The blocks `ps` are freed, `qs` are left, and nothing else has changed.
pub record BlocksFreed (ps qs : List Ptr) (m m' : Memory) : Type 0 where
  pub heap : m'.heap ≡ m.heap
  pub strings : m'.strings ≡ m.strings
  pub values : m'.values ≡ m.values
  pub left : Freeable m'.block qs
  pub freed : (a : Ptr) → has a ps ≡ true → (a == null) ≡ false → m'.block a ≡ false
  pub same : (a : Ptr) → has a ps ≡ false → m'.block a ≡ m.block a
  pub fades : (a : Ptr) → m.block a ≡ false → m'.block a ≡ false

pub free_block-BlocksFreed :
    (p : Ptr) (qs : List Ptr) (m : Memory)
    → Freeable m.block (p ∷ qs)
    → Finishes (λ _ m'. BlocksFreed (p ∷ []) qs m m') (free_block p m)
unfolding free_block
free_block-BlocksFreed p qs m (inl e, k) =
    let none : (p == null) ≡ true = ground arith in
    rw none (
      finishes (record {
        heap = refl;
        strings = refl;
        values = refl;
        left = k;
        freed = λ a i o. ground arith;
        same = λ a o. refl;
        fades = λ a o. o;
      }))
free_block-BlocksFreed p qs m (inr (e, f), k) = elim (Bool-cases (p == null)) [
  | inl n ↦ rw n (
      finishes (record {
        heap = refl;
        strings = refl;
        values = refl;
        left = k;
        freed = λ a i o. ground arith;
        same = λ a o. refl;
        fades = λ a o. o;
      }))
  | inr n ↦
      rw (n, e)
        (finishes (record {
          heap = refl;
          strings = refl;
          values = refl;
          left = Freeable-update m.block p qs f k;
          freed = λ a i o. ground arith;
          same = λ a o. ground arith;
          fades = λ a o. ground arith;
        }))
]

BlocksFreed-cons :
    (p : Ptr) (ps qs : List Ptr) (m m1 m2 : Memory)
    → BlocksFreed (p ∷ []) (ps ++ qs) m m1
    → BlocksFreed ps qs m1 m2
    → BlocksFreed (p ∷ ps) qs m m2
BlocksFreed-cons p ps qs m m1 m2 a b = record {
  heap = b.heap ∙ a.heap;
  strings = b.strings ∙ a.strings;
  values = b.values ∙ a.values;
  left = b.left;
  freed = λ c i o. elim (Bool-cases (has c ps)) [
    | inl e ↦ b.freed c e o
    | inr e ↦ b.fades c (a.freed c (ground arith) o)
  ];
  same = λ c o. b.same c (ground arith) ∙ a.same c (ground arith);
  fades = λ c o. b.fades c (a.fades c o);
}

pub free_blocks-BlocksFreed :
    (ps qs : List Ptr) (m : Memory)
    → Freeable m.block (ps ++ qs)
    → Finishes (λ _ m'. BlocksFreed ps qs m m') (free_blocks ps m)
unfolding free_blocks
free_blocks-BlocksFreed [] qs m k = finishes (record {
  heap = refl;
  strings = refl;
  values = refl;
  left = k;
  freed = λ a i o. cc;
  same = λ a o. refl;
  fades = λ a o. o;
})
free_blocks-BlocksFreed (p ∷ ps) qs m k =
    Finishes-bind (free_block-BlocksFreed p (ps ++ qs) m k) λ _ m1 a.
      Finishes-mono (free_blocks-BlocksFreed ps qs m1 a.left)
        (λ _ m2 b. BlocksFreed-cons p ps qs m m1 m2 a b)

-- A pointer that is not `NULL` names a block.
pub Freeable-block :
    (b : Ptr → Bool) (ps : List Ptr) (q : Ptr) (qs : List Ptr)
    → q ≢ null
    → Freeable b (ps ++ q ∷ qs)
    → b q ≡ true
Freeable-block b [] q qs n (inl e, k) = absurd (n e)
Freeable-block b [] q qs n (inr (e, f), k) = e
Freeable-block b (p ∷ ps) q qs n (o, k) = Freeable-block b ps q qs n k
