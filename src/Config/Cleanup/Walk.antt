-- ===== src/Config/Cleanup/Walk.antt =====
-- src/plugins/config/file.c: the loop that frees a list with what it carries, for any body that keeps to
-- its own memory.
use netvizd.Common.{
  ℕ, zero, suc, ◌<◌, ◌≡◌, subst, sym, ap, ◌∙◌, true, false, List, [], ◌∷◌, arith, ◌==◌, length,
  Bool-cases, inl, inr, if◌then◌else◌, ◌||◌,
}
use netvizd.NvList.{Ptr, null, Heap, get_next, get_prev, list_del}
use netvizd.NvList.Places.{first, Links-next_last}
use netvizd.NvList.Delete.{Deleted, del-Deleted}
use netvizd.NvList.Ring.{has, IsRing, SameOutside, contents, contents-frame}
use netvizd.Config.Cleanup.Steps.{
  Agree, Agree-Below, Below, Deleted-SameOutside, Deleted-fades, Finishes, Finishes-after_run,
  Finishes-bind, Finishes-bind_left, Finishes-bind_run, Finishes-mono, IsRing-Agree, finishes,
}
use netvizd.Config.Cleanup.{◌>>=◌, ◌>>◌, Memory, did, Task, on_heap, free_walk, free_list}

-- `free` is the body, `area` the list's own addresses, and `Inv fs m` says that the structures `fs` can be
-- freed in the memory `m`.
module _ (free : Ptr → Task (Unit {0})) (l : Ptr) (area : List Ptr)
    (Inv : List Ptr → Memory → Type 0)
    (step : (f : Ptr) (fs : List Ptr) (m : Memory)
      → Inv (f ∷ fs) m
      → Finishes (λ _ m'. Inv fs m' × Agree area m.heap m'.heap) (free f m))
    (stable : (fs : List Ptr) (m : Memory) (h : Heap)
      → Inv fs m
      → SameOutside area m.heap h
      → h.payload ≡ m.heap.payload
      → ((a : Ptr) → m.heap.live a ≡ false → h.live a ≡ false)
      → Inv fs (record m { heap = h })) where
  -- After the loop: the last node `n` is left.
  record Walked (t : Ptr) (ys : List Ptr) (h : Heap) (n : Ptr) (m : Memory) : Type 0 where
    ring : IsRing m.heap l (n ∷ [])
    among : has n (t ∷ ys) ≡ true
    freed : (a : Ptr) → has a (t ∷ ys) ≡ true → (a == n) ≡ false → m.heap.live a ≡ false
    kept : (a : Ptr) → has a area ≡ true → h.live a ≡ false → m.heap.live a ≡ false
    rest : Inv [] m

  Walked-cons :
      (t y : Ptr) (ys : List Ptr) (m m1 : Memory) (g : Heap) (n : Ptr) (m' : Memory)
      → Below (l ∷ t ∷ y ∷ ys) area
      → Agree area m.heap m1.heap
      → Deleted m1.heap l [] t (y ∷ ys) g
      → Walked y ys g n m'
      → Walked t (y ∷ ys) m.heap n m'
  Walked-cons t y ys m m1 g n m' b s d w = record {
    ring = w.ring;
    among = ground (arith, w.among);
    freed = λ a i o. elim (Bool-cases (has a (y ∷ ys))) [
      | inl e ↦ w.freed a e o
      | inr e ↦ w.kept a (b a (ground arith)) (ground (arith, d.freed))
    ];
    kept = λ a i e. elim (Bool-cases (a == t)) [
      | inl f ↦ w.kept a i (ground (arith, d.freed))
      | inr f ↦ w.kept a i (d.same_live a f ∙ s.same_live a i ∙ e)
    ];
    rest = w.rest;
  }

  -- One round, from the call of the body on: the node before `y` is freed.
  free_walk-round :
      (k : ℕ) (t y : Ptr) (ys : List Ptr) (m m1 : Memory)
      → IsRing m.heap l (t ∷ y ∷ ys)
      → Below (l ∷ t ∷ y ∷ ys) area
      → Inv (contents m.heap ys) m1
      → Agree area m.heap m1.heap
      → ((m2 : Memory)
          → IsRing m2.heap l (y ∷ ys)
          → Below (l ∷ y ∷ ys) area
          → Inv (contents m2.heap ys) m2
          → length ys < k
          → Finishes (Walked y ys m2.heap) (free_walk free k l y (first ys l) m2))
      → length ys < k
      → Finishes (Walked t (y ∷ ys) m.heap) (
          ((if t == null then did tt else (do p ← on_heap (get_prev y); on_heap (list_del p)))
              >> (on_heap (get_next y) >>= free_walk free k l y))
            m1)
  free_walk-round k t y ys m m1 r b i s next fuel =
      let behind : (t == null) ≡ false = ground (arith, r.nodes.0.ne_null) in
      let r1 =
        IsRing-Agree m.heap m1.heap l (t ∷ y ∷ ys) (Agree-Below _ area m.heap m1.heap b s) r in
      rw (behind, r1.nodes.1.0.live, r1.circle.2.1)
        (Finishes-bind_run m1 _ (del-Deleted m1.heap l [] t (y ∷ ys) r1) λ _ g d.
          rw (d.ring.nodes.0.live, Links-next_last g y [] ys l d.ring.circle.2)
            (Finishes-mono
              (next (record m1 { heap = g }) d.ring (λ a j. b a (ground arith))
                (subst (λ fs. Inv fs (record m1 { heap = g }))
                  (sym (
                    contents-frame m.heap g ys (λ a j.
                      ap (λ f. f a) d.same_payload ∙ s.same_payload a (b a (ground arith)))))
                  (stable (contents m.heap ys) m1 g i
                    (Deleted-SameOutside area m1.heap g l t (y ∷ ys) b d) d.same_payload
                    (Deleted-fades m1.heap g l t (y ∷ ys) d)))
                fuel)
              (λ n m' w. Walked-cons t y ys m m1 g n m' b s d w)))

  free_walk-Walked :
      (k : ℕ) (t : Ptr) (ys : List Ptr) (m : Memory)
      → IsRing m.heap l (t ∷ ys)
      → Below (l ∷ t ∷ ys) area
      → Inv (contents m.heap ys) m
      → length ys < k
      → Finishes (Walked t ys m.heap) (free_walk free k l t (first ys l) m)
  unfolding free_walk
  free_walk-Walked zero t ys m r b i fuel = absurd (omega arith)
  free_walk-Walked (suc k) t [] m r b i fuel =
      let stop : (l == l) ≡ true = ground arith in
      rw stop (
        finishes (record {
          ring = r;
          among = ground arith;
          freed = λ a j o. ground arith;
          kept = λ a j e. e;
          rest = i;
        }))
  free_walk-Walked (suc k) t (y ∷ ys) m r b i fuel =
      let on : (y == l) ≡ false = ground (arith, r.outside) in
      let held : (y == null) ≡ false = ground (arith, r.nodes.1.0.ne_null) in
      let behind : (t == null) ≡ false = ground (arith, r.nodes.0.ne_null) in
      rw (on, held, r.nodes.1.0.live)
        (Finishes-bind (step (m.heap.payload y) (contents m.heap ys) m i) λ _ m1 (i1, s).
          free_walk-round k t y ys m m1 r b i1 s (λ m2. free_walk-Walked k y ys m2) (omega arith))

  -- The list is empty, its nodes are freed, and so is what they carried.
  pub record Freed (xs : List Ptr) (m : Memory) : Type 0 where
    pub ring : IsRing m.heap l []
    pub freed : (a : Ptr) → has a xs ≡ true → m.heap.live a ≡ false
    pub rest : Inv [] m

  Freed-of_Walked :
      (x : Ptr) (xs : List Ptr) (h : Heap) (n : Ptr) (m : Memory) (g : Heap)
      → Below (l ∷ x ∷ xs) area
      → Walked x xs h n m
      → Deleted m.heap l [] n [] g
      → Freed (x ∷ xs) (record m { heap = g })
  Freed-of_Walked x xs h n m g b w d = record {
    ring = d.ring;
    freed = λ a i. elim (Bool-cases (a == n)) [
      | inl e ↦ ground (arith, d.freed)
      | inr e ↦ d.same_live a e ∙ w.freed a i e
    ];
    rest =
        stable [] m g w.rest
          (Deleted-SameOutside area m.heap g l n [] (λ a i. b a (ground (arith, w.among))) d)
          d.same_payload (Deleted-fades m.heap g l n [] d);
  }

  -- The first round: the body is called, and no node is behind.
  free_walk-first :
      (k : ℕ) (x : Ptr) (xs : List Ptr) (m m1 : Memory)
      → IsRing m.heap l (x ∷ xs)
      → Below (l ∷ x ∷ xs) area
      → Inv (contents m.heap xs) m1
      → Agree area m.heap m1.heap
      → length xs < k
      → Finishes
          (λ _ m'. Freed (x ∷ xs) m')
          ((on_heap (get_next x) >>= free_walk free k l x >>= λ t. on_heap (list_del t)) m1)
  free_walk-first k x xs m m1 r b i s fuel =
      let r1 = IsRing-Agree m.heap m1.heap l (x ∷ xs) (Agree-Below _ area m.heap m1.heap b s) r in
      let same =
        sym (contents-frame m.heap m1.heap xs (λ a j. s.same_payload a (b a (ground arith)))) in
      rw (r1.nodes.0.live, Links-next_last m1.heap x [] xs l r1.circle.2)
        (Finishes-bind (free_walk-Walked k x xs m1 r1 b (subst (λ fs. Inv fs m1) same i) fuel)
          λ n m2 w.
            Finishes-after_run m2 (del-Deleted m2.heap l [] n [] w.ring)
              (λ _ g d. Freed-of_Walked x xs m1.heap n m2 g b w d))

  pub free_list-Freed :
      (k : ℕ) (xs : List Ptr) (m : Memory)
      → IsRing m.heap l xs
      → Below (l ∷ xs) area
      → Inv (contents m.heap xs) m
      → length xs < k
      → Finishes (λ _ m'. Freed xs m') (free_list free k l m)
  unfolding free_list free_walk list_del
  free_list-Freed zero xs m r b i fuel = absurd (omega arith)
  free_list-Freed (suc k) [] m r b i fuel =
      let stop : (null == l || null == null) ≡ true = ground arith in
      rw (r.head_live, r.circle.0, stop)
        (finishes (record { ring = r; freed = λ a j. cc; rest = i }))
  free_list-Freed (suc k) (x ∷ xs) m r b i fuel =
      let on : (x == l) ≡ false = ground (arith, r.outside) in
      let held : (x == null) ≡ false = ground (arith, r.nodes.0.ne_null) in
      rw (r.head_live, r.circle.0, on, held, r.nodes.0.live)
        (Finishes-bind_left _ _ (step (m.heap.payload x) (contents m.heap xs) m i)
          λ _ m1 (i1, s). free_walk-first k x xs m m1 r b i1 s (omega arith))
