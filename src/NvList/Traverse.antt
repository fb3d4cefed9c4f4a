-- ===== src/NvList/Traverse.antt =====
-- src/nvlist.h: `list_for_each`, and the loop by which src/plugins/config/file.c frees a list.
use netvizd.Common.{
  ℕ, zero, suc, ◌<◌, ◌≡◌, refl, true, false, List, [], ◌∷◌, arith, ◌==◌, length, Bool-cases, inl,
  inr, ◌∙◌,
}
use netvizd.NvList.{
  Ptr, null, Heap, Run, done, Action, go_on, visit, list_for_each, sweep, list_clear, list_del,
}
use netvizd.NvList.Places.{first, Links-next_last}
use netvizd.NvList.Delete.{Deleted, del-Deleted}
use netvizd.NvList.Ring.{Ends, ends, has, Links, Nodes, IsRing}

visit-Nodes :
    (k : ℕ) (h : Heap) (l p : Ptr) (xs : List Ptr)
    → Links h p xs l
    → Nodes h xs
    → has l xs ≡ false
    → length xs < k
    → visit k l (h.next p) h ≡ done xs h
unfolding visit
visit-Nodes zero h l p xs k ns o fuel = absurd (omega arith)
visit-Nodes (suc k) h l p [] (e, f) ns o fuel = ground arith
visit-Nodes (suc k) h l p (x ∷ xs) (e, f, rest) (n, ns) o fuel =
    let ih = visit-Nodes k h l x xs rest ns (ground arith) (omega arith) in
    ground (arith, ih, n.live, n.ne_null)

-- The traversal of a list visits its nodes in order, each once, leaves the heap alone, and makes
-- one test more than there are nodes.
pub for_each-nodes :
    (k : ℕ) (h : Heap) (l : Ptr) (xs : List Ptr)
    → IsRing h l xs
    → length xs < k
    → list_for_each k l h ≡ done xs h
unfolding list_for_each
for_each-nodes zero h l xs r fuel = absurd (omega arith)
for_each-nodes (suc k) h l [] r fuel = ground (arith, r.head_live, r.circle)
for_each-nodes (suc k) h l (x ∷ xs) r fuel =
    rw (r.head_live) (visit-Nodes (suc k) h l l (x ∷ xs) r.circle r.nodes r.outside fuel)

Ends-bind :
    {A B : Type 0} {P : A → Heap → Type 0} {Q : B → Heap → Type 0} {r : Run A} {k : A → Action B}
    → Ends P r
    → ((a : A) (h : Heap) → P a h → Ends Q (k a h))
    → Ends Q (go_on r k)
Ends-bind (ends p) next = next _ _ p

Ends-mono :
    {A : Type 0} {P Q : A → Heap → Type 0} {r : Run A}
    → Ends P r
    → ((a : A) (h : Heap) → P a h → Q a h)
    → Ends Q r
Ends-mono (ends p) weaken = ends (weaken _ _ p)

-- What is common to the outcomes of the freeing loop: only the nodes `xs` and the sentinel change.
pub record Spares (l : Ptr) (xs : List Ptr) (h g : Heap) : Type 0 where
  pub same_live : (a : Ptr) → has a xs ≡ false → g.live a ≡ h.live a
  pub same_payload : g.payload ≡ h.payload
  pub same_next : (a : Ptr) → has a (l ∷ xs) ≡ false → g.next a ≡ h.next a
  pub same_prev : (a : Ptr) → has a (l ∷ xs) ≡ false → g.prev a ≡ h.prev a

-- After the loop: the last node `n` is left, the nodes before it are freed.
record Swept (l t : Ptr) (ys : List Ptr) (h : Heap) (n : Ptr) (g : Heap) : Type 0 where
  ring : IsRing g l (n ∷ [])
  among : has n (t ∷ ys) ≡ true
  freed : (a : Ptr) → has a (t ∷ ys) ≡ true → (a == n) ≡ false → g.live a ≡ false
  spares : Spares l (t ∷ ys) h g

-- The list is empty again, and each of its nodes is freed.
pub record Cleared (l : Ptr) (xs : List Ptr) (h g : Heap) : Type 0 where
  pub ring : IsRing g l []
  pub freed : (a : Ptr) → has a xs ≡ true → g.live a ≡ false
  pub spares : Spares l xs h g

module _ (l t y : Ptr) (ys : List Ptr) (h : Heap) (r : IsRing h l (t ∷ y ∷ ys)) where
  Swept-cons :
      (g : Heap)
      → Deleted h l [] t (y ∷ ys) g
      → (n : Ptr) (f : Heap) → Swept l y ys g n f
      → Swept l t (y ∷ ys) h n f
  Swept-cons g d n f s = record {
    ring = s.ring;
    among = ground (arith, s.among);
    freed = λ a i o. elim (Bool-cases (has a (y ∷ ys))) [
      | inl e ↦ s.freed a e o
      | inr e ↦ ground (arith, s.spares.same_live a e, d.freed)
    ];
    spares = record {
      same_live = λ a o. ground (arith, s.spares.same_live a, d.same_live a);
      same_payload = s.spares.same_payload ∙ d.same_payload;
      same_next = λ a o. ground (arith, s.spares.same_next a, d.same_next a);
      same_prev = λ a o. ground (arith, s.spares.same_prev a, d.same_prev a);
    };
  }

sweep-Swept :
    (k : ℕ) (l t : Ptr) (ys : List Ptr) (h : Heap)
    → IsRing h l (t ∷ ys)
    → length ys < k
    → Ends (Swept l t ys h) (sweep k l t (first ys l) h)
unfolding sweep
sweep-Swept zero l t ys h r fuel = absurd (omega arith)
sweep-Swept (suc k) l t [] h r fuel =
    let stop : (l == l) ≡ true = ground arith in
    rw stop (
      ends (record {
        ring = r;
        among = ground arith;
        freed = λ a i o. ground arith;
        spares = record {
          same_live = λ a o. refl;
          same_payload = refl;
          same_next = λ a o. refl;
          same_prev = λ a o. refl;
        };
      }))
sweep-Swept (suc k) l t (y ∷ ys) h r fuel =
    let on : (y == l) ≡ false = ground (arith, r.outside) in
    let held : (y == null) ≡ false = ground (arith, r.nodes.1.0.ne_null) in
    let behind : (t == null) ≡ false = ground (arith, r.nodes.0.ne_null) in
    rw (on, held, behind, r.nodes.1.0.live, r.circle.2.1)
      (Ends-bind (del-Deleted h l [] t (y ∷ ys) r) λ _ g d.
        rw (d.ring.nodes.0.live, Links-next_last g y [] ys l d.ring.circle.2)
          (Ends-mono (sweep-Swept k l y ys g d.ring (omega arith)) (Swept-cons l t y ys h r g d)))

-- The first round only moves on: there is no node behind it yet.
sweep-first :
    (k : ℕ) (l x : Ptr) (xs : List Ptr) (h : Heap)
    → IsRing h l (x ∷ xs)
    → sweep (suc k) l null x h ≡ sweep k l x (first xs l) h
unfolding sweep
sweep-first k l x xs h r =
    let on : (x == l) ≡ false = ground (arith, r.outside) in
    let held : (x == null) ≡ false = ground (arith, r.nodes.0.ne_null) in
    rw (on, held, r.nodes.0.live, Links-next_last h x [] xs l r.circle.2) refl

-- On an empty list the loop makes no round, and `list_del(NULL)` does nothing.
clear-empty : (k : ℕ) (l : Ptr) (h : Heap) → IsRing h l [] → list_clear (suc k) l h ≡ done tt h
unfolding list_clear sweep list_del
clear-empty k l h r = rw (r.head_live, r.circle.0) (ground arith)

Cleared-of_Swept :
    (l x : Ptr) (xs : List Ptr) (h : Heap) (n : Ptr) (g : Heap)
    → Swept l x xs h n g
    → (f : Heap) → Deleted g l [] n [] f
    → Cleared l (x ∷ xs) h f
Cleared-of_Swept l x xs h n g s f d = record {
  ring = d.ring;
  freed = λ a i. elim (Bool-cases (a == n)) [
    | inl e ↦ ground (arith, d.freed)
    | inr e ↦ ground (arith, d.same_live a, s.freed a)
  ];
  spares = record {
    same_live = λ a o. ground (arith, d.same_live a, s.spares.same_live a, s.among);
    same_payload = d.same_payload ∙ s.spares.same_payload;
    same_next = λ a o. ground (arith, d.same_next a, s.spares.same_next a);
    same_prev = λ a o. ground (arith, d.same_prev a, s.spares.same_prev a);
  };
}

-- Freeing a list while walking it ends without a fault: every node of the list is freed, the
-- sentinel stands for the empty list again, and nothing outside the list changes.
pub clear-Cleared :
    (k : ℕ) (l : Ptr) (xs : List Ptr) (h : Heap)
    → IsRing h l xs
    → length xs < k
    → Ends (λ _. Cleared l xs h) (list_clear k l h)
unfolding list_clear
clear-Cleared zero l xs h r fuel = absurd (omega arith)
clear-Cleared (suc k) l [] h r fuel = rw (clear-empty k l h r) (
    ends (record {
      ring = r;
      freed = λ a i. cc;
      spares = record {
        same_live = λ a o. refl;
        same_payload = refl;
        same_next = λ a o. refl;
        same_prev = λ a o. refl;
      };
    }))
clear-Cleared (suc k) l (x ∷ xs) h r fuel =
    rw (r.head_live, r.circle.0, sweep-first k l x xs h r)
      (Ends-bind (sweep-Swept k l x xs h r (omega arith)) λ n g s.
        Ends-mono (del-Deleted g l [] n [] s.ring) λ _ f d. Cleared-of_Swept l x xs h n g s f d)
