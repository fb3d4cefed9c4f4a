-- ===== src/Config/Cleanup/Steps.antt =====
-- src/plugins/config/file.c: tasks that end without a fault, and heaps that agree in a part.
use netvizd.Common.{◌≡◌, ap, ◌∙◌, true, false, List, [], ◌∷◌, arith, ◌==◌, Bool-cases, inl, inr}
use netvizd.NvList.{Ptr, Heap, Run}
use netvizd.NvList.Delete.{Deleted}
use netvizd.NvList.Ring.{Ends, ends, has, IsRing, Circle, Nodes-frame, Links-frame, SameOutside}
use netvizd.Config.Cleanup.{Memory, TaskEnd, did, Task, and_then, after_run}

-- A task that ends with a value and a memory, without a fault.
pub data Finishes {A : Type 0} (Q : A → Memory → Type 0) : TaskEnd A → Type 0 where
  finishes : {a : A} {m : Memory} → Q a m → Finishes Q (did a m)

pub Finishes-bind :
    {A B : Type 0} {P : A → Memory → Type 0} {Q : B → Memory → Type 0} {r : TaskEnd A}
    {k : A → Task B}
    → Finishes P r
    → ((a : A) (m : Memory) → P a m → Finishes Q (k a m))
    → Finishes Q (and_then r k)
Finishes-bind (finishes p) next = next _ _ p

pub Finishes-bind_left :
    {A B C : Type 0} {P : A → Memory → Type 0} {Q : C → Memory → Type 0} {r : TaskEnd A}
    (f : A → Task B) (g : B → Task C)
    → Finishes P r
    → ((a : A) (m : Memory) → P a m → Finishes Q (and_then (f a m) g))
    → Finishes Q (and_then (and_then r f) g)
Finishes-bind_left f g (finishes p) next = next _ _ p

pub Finishes-mono :
    {A : Type 0} {P Q : A → Memory → Type 0} {r : TaskEnd A}
    → Finishes P r
    → ((a : A) (m : Memory) → P a m → Q a m)
    → Finishes Q r
Finishes-mono (finishes p) weaken = finishes (weaken _ _ p)

pub Finishes-bind_run :
    {A B : Type 0} {P : A → Heap → Type 0} {Q : B → Memory → Type 0} {r : Run A} (m : Memory)
    (k : A → Task B)
    → Ends P r
    → ((a : A) (h : Heap) → P a h → Finishes Q (k a (record m { heap = h })))
    → Finishes Q (and_then (after_run r m) k)
Finishes-bind_run m k (ends p) next = next _ _ p

pub Finishes-after_run :
    {A : Type 0} {P : A → Heap → Type 0} {Q : A → Memory → Type 0} {r : Run A} (m : Memory)
    → Ends P r
    → ((a : A) (h : Heap) → P a h → Q a (record m { heap = h }))
    → Finishes Q (after_run r m)
Finishes-after_run m (ends p) weaken = finishes (weaken _ _ p)

-- The heaps agree at the addresses `xs`.
pub record Agree (xs : List Ptr) (h g : Heap) : Type 0 where
  pub same_live : (a : Ptr) → has a xs ≡ true → g.live a ≡ h.live a
  pub same_next : (a : Ptr) → has a xs ≡ true → g.next a ≡ h.next a
  pub same_prev : (a : Ptr) → has a xs ≡ true → g.prev a ≡ h.prev a
  pub same_payload : (a : Ptr) → has a xs ≡ true → g.payload a ≡ h.payload a

abbrev pub Below : List Ptr → List Ptr → Type 0
Below xs ys = (a : Ptr) → has a xs ≡ true → has a ys ≡ true

pub Circle-Agree :
    (h g : Heap) (l : Ptr) (xs : List Ptr) → Agree (l ∷ xs) h g → Circle h l xs → Circle g l xs
Circle-Agree h g l [] s (e, f) = (ground (arith, s.same_next l), ground (arith, s.same_prev l))
Circle-Agree h g l (x ∷ xs) s c = Links-frame h g l (x ∷ xs) l s.same_next s.same_prev c

pub IsRing-Agree :
    (h g : Heap) (l : Ptr) (xs : List Ptr) → Agree (l ∷ xs) h g → IsRing h l xs → IsRing g l xs
IsRing-Agree h g l xs s r = record {
  head_live = ground (arith, s.same_live l, r.head_live);
  head_ne_null = r.head_ne_null;
  head_empty = ground (arith, s.same_payload l, r.head_empty);
  nodes =
      Nodes-frame h g xs (λ a i. s.same_live a (ground arith))
        (λ a i. s.same_payload a (ground arith)) r.nodes;
  outside = r.outside;
  distinct = r.distinct;
  circle = Circle-Agree h g l xs s r.circle;
}

pub Agree-Below : (xs ys : List Ptr) (h g : Heap) → Below xs ys → Agree ys h g → Agree xs h g
Agree-Below xs ys h g b s = record {
  same_live = λ a i. s.same_live a (b a i);
  same_next = λ a i. s.same_next a (b a i);
  same_prev = λ a i. s.same_prev a (b a i);
  same_payload = λ a i. s.same_payload a (b a i);
}

-- A deletion from the front keeps to the list.
pub Deleted-SameOutside :
    (ys : List Ptr) (h g : Heap) (l t : Ptr) (xs : List Ptr)
    → Below (l ∷ t ∷ xs) ys
    → Deleted h l [] t xs g
    → SameOutside ys h g
Deleted-SameOutside ys h g l t xs b d = record {
  same_live = λ a o. d.same_live a (ground (arith, b a));
  same_next = λ a o. d.same_next a (ground (arith, b a));
  same_prev = λ a o. d.same_prev a (ground (arith, b a));
  same_payload = λ a o. ap (λ f. f a) d.same_payload;
}

pub Deleted-fades :
    (h g : Heap) (l t : Ptr) (xs : List Ptr)
    → Deleted h l [] t xs g
    → (a : Ptr) → h.live a ≡ false
    → g.live a ≡ false
Deleted-fades h g l t xs d a e = elim (Bool-cases (a == t)) [
  | inl f ↦ ground (arith, d.freed)
  | inr f ↦ d.same_live a f ∙ e
]
