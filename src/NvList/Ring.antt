-- ===== src/NvList/Ring.antt =====
-- src/nvlist.h: what a well-formed list looks like in the heap, and what survives a write.
use netvizd.Common.{
  ◌≡◌, ◌≢◌, refl, Bool, true, false, ◌||◌, List, [], ◌∷◌, ◌++◌, map, arith, ◌==◌, Bool-cases, inl,
  inr,
}
use netvizd.NvList.{Ptr, null, Heap, Run, done}

-- A run that ends with a value and a heap, without a fault and without running out of fuel.
pub data Ends {A : Type 0} (Q : A → Heap → Type 0) : Run A → Type 0 where
  ends : {a : A} {h : Heap} → Q a h → Ends Q (done a h)

abbrev pub has : Ptr → List Ptr → Bool
has a [] = false
has a (x ∷ xs) = (a == x) || has a xs

abbrev pub Distinct : List Ptr → Type 0
Distinct [] = Unit {0}
Distinct (x ∷ xs) = (has x xs ≡ false) × Distinct xs

-- From `p` the `next` pointers lead through `xs` to `r`, and the `prev` pointers lead back.
abbrev pub Links : Heap → Ptr → List Ptr → Ptr → Type 0
Links h p [] r = (h.next p ≡ r) × (h.prev r ≡ p)
Links h p (x ∷ xs) r = (h.next p ≡ x) × (h.prev x ≡ p) × Links h x xs r

-- An empty list has two `NULL` links; any other is a ring through the sentinel.
abbrev pub Circle : Heap → Ptr → List Ptr → Type 0
Circle h l [] = (h.next l ≡ null) × (h.prev l ≡ null)
Circle h l (x ∷ xs) = Links h l (x ∷ xs) l

-- An allocated node that carries data.
pub record IsNode (h : Heap) (p : Ptr) : Type 0 where
  pub live : h.live p ≡ true
  pub ne_null : p ≢ null
  pub filled : h.payload p ≢ null

abbrev pub Nodes : Heap → List Ptr → Type 0
Nodes h [] = Unit {0}
Nodes h (x ∷ xs) = IsNode h x × Nodes h xs

-- The list with sentinel `l` consists of the nodes `xs`, in this order.
pub record IsRing (h : Heap) (l : Ptr) (xs : List Ptr) : Type 0 where
  pub head_live : h.live l ≡ true
  pub head_ne_null : l ≢ null
  pub head_empty : h.payload l ≡ null
  pub nodes : Nodes h xs
  pub outside : has l xs ≡ false
  pub distinct : Distinct xs
  pub circle : Circle h l xs

-- `g` differs from `h` at most at the addresses `xs`.
pub record SameOutside (xs : List Ptr) (h g : Heap) : Type 0 where
  pub same_live : (a : Ptr) → has a xs ≡ false → g.live a ≡ h.live a
  pub same_next : (a : Ptr) → has a xs ≡ false → g.next a ≡ h.next a
  pub same_prev : (a : Ptr) → has a xs ≡ false → g.prev a ≡ h.prev a
  pub same_payload : (a : Ptr) → has a xs ≡ false → g.payload a ≡ h.payload a

-- The data that the list holds, in order.
abbrev pub contents : Heap → List Ptr → List Ptr
contents h = map h.payload

pub has-append : (p : Ptr) (ns ms : List Ptr) → has p (ns ++ ms) ≡ (has p ns || has p ms)
has-append p [] ms = refl
has-append p (n ∷ ns) ms = let rest = has-append p ns ms in ground arith

pub Links-frame :
    (h g : Heap) (p : Ptr) (xs : List Ptr) (r : Ptr)
    → ((a : Ptr) → has a (p ∷ xs) ≡ true → g.next a ≡ h.next a)
    → ((a : Ptr) → has a (r ∷ xs) ≡ true → g.prev a ≡ h.prev a)
    → Links h p xs r
    → Links g p xs r
Links-frame h g p [] r n v (e, f) = (ground (arith, n p), ground (arith, v r))
Links-frame h g p (x ∷ xs) r n v (e, f, k) = (
  ground (arith, n p),
  ground (arith, v x),
  Links-frame h g x xs r (λ a i. n a (ground arith)) (λ a i. v a (ground arith)) k,
)

pub Links-split :
    (h : Heap) (p : Ptr) (xs : List Ptr) (q : Ptr) (ys : List Ptr) (r : Ptr)
    → Links h p (xs ++ q ∷ ys) r
    → Links h p xs q × Links h q ys r
Links-split h p [] q ys r (e, f, k) = ((e, f), k)
Links-split h p (x ∷ xs) q ys r (e, f, k) =
    let rest = Links-split h x xs q ys r k in ((e, f, rest.0), rest.1)

pub Links-join :
    (h : Heap) (p : Ptr) (xs : List Ptr) (q : Ptr) (ys : List Ptr) (r : Ptr)
    → Links h p xs q
    → Links h q ys r
    → Links h p (xs ++ q ∷ ys) r
Links-join h p [] q ys r (e, f) k = (e, f, k)
Links-join h p (x ∷ xs) q ys r (e, f, j) k = (e, f, Links-join h x xs q ys r j k)

pub Nodes-frame :
    (h g : Heap) (xs : List Ptr)
    → ((a : Ptr) → has a xs ≡ true → g.live a ≡ h.live a)
    → ((a : Ptr) → has a xs ≡ true → g.payload a ≡ h.payload a)
    → Nodes h xs
    → Nodes g xs
Nodes-frame h g [] l v k = tt
Nodes-frame h g (x ∷ xs) l v (k, ks) = (
  record {
    live = ground (arith, l x, k.live);
    ne_null = k.ne_null;
    filled = ground (arith, v x, k.filled);
  },
  Nodes-frame h g xs (λ a i. l a (ground arith)) (λ a i. v a (ground arith)) ks,
)

pub Nodes-append : (h : Heap) (xs ys : List Ptr) → Nodes h xs → Nodes h ys → Nodes h (xs ++ ys)
Nodes-append h [] ys k m = m
Nodes-append h (x ∷ xs) ys (k, ks) m = (k, Nodes-append h xs ys ks m)

pub Nodes-split : (h : Heap) (xs ys : List Ptr) → Nodes h (xs ++ ys) → Nodes h xs × Nodes h ys
Nodes-split h [] ys k = (tt, k)
Nodes-split h (x ∷ xs) ys (k, ks) = let rest = Nodes-split h xs ys ks in ((k, rest.0), rest.1)

pub Node-of_has : (h : Heap) (a : Ptr) (xs : List Ptr) → Nodes h xs → has a xs ≡ true → IsNode h a
Node-of_has h a [] k i = cc
Node-of_has h a (x ∷ xs) (k, ks) i = elim (Bool-cases (a == x)) [
  | inl e ↦ record {
    live = ground (arith, k.live);
    ne_null = ground (arith, k.ne_null);
    filled = ground (arith, k.filled);
  }
  | inr e ↦ Node-of_has h a xs ks (ground arith)
]

pub contents-frame :
    (h g : Heap) (xs : List Ptr)
    → ((a : Ptr) → has a xs ≡ true → g.payload a ≡ h.payload a)
    → contents g xs ≡ contents h xs
contents-frame h g [] v = refl
contents-frame h g (x ∷ xs) v =
    ground (arith, v x, contents-frame h g xs (λ a i. v a (ground arith)))
