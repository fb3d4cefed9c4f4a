-- ===== src/NvList/Places.antt =====
-- src/nvlist.h: the two neighbours of a place in a list, and the links around it after an insertion
-- and after a removal.
use netvizd.Common.{◌≡◌, refl, true, false, ◌||◌, List, [], ◌∷◌, ◌++◌, arith, ◌==◌}
use netvizd.NvList.{Ptr, Heap, update}
use netvizd.NvList.Ring.{has, Distinct, Links, Circle, has-append, Links-frame}

-- The node before and the node after a place.
abbrev pub last : Ptr → List Ptr → Ptr
last p [] = p
last p (x ∷ xs) = last x xs

abbrev pub first : List Ptr → Ptr → Ptr
first [] r = r
first (y ∷ ys) r = y

-- The heap after the writes of an insertion of `n` between `p` and `t`, and after its removal.
abbrev pub linked : Heap → Ptr → Ptr → Ptr → Heap
linked h p n t = record h {
  next = update (update h.next n t) p n;
  prev = update (update h.prev n p) t n;
}

abbrev pub unlinked : Heap → Ptr → Ptr → Heap
unlinked h p t = record h { next = update h.next p t; prev = update h.prev t p }

pub ne_last :
    (p x : Ptr) (xs ys : List Ptr) → has p (x ∷ (xs ++ ys)) ≡ false → (p == last x xs) ≡ false
ne_last p x [] ys o = ground arith
ne_last p x (y ∷ xs) ys o = ne_last p y xs ys (ground arith)

pub ne_first :
    (x r : Ptr) (xs ys : List Ptr)
    → has x (xs ++ ys) ≡ false
    → (x == r) ≡ false
    → (x == first ys r) ≡ false
ne_first x r [] [] o e = e
ne_first x r [] (y ∷ ys) o e = ground arith
ne_first x r (z ∷ xs) ys o e = ne_first x r xs ys (ground arith) e

pub has-insert :
    (a n : Ptr) (xs ys : List Ptr) → has a (xs ++ n ∷ ys) ≡ ((a == n) || has a (xs ++ ys))
has-insert a n [] ys = refl
has-insert a n (x ∷ xs) ys = ground (arith, has-insert a n xs ys)

pub Distinct-insert :
    (n : Ptr) (xs ys : List Ptr)
    → Distinct (xs ++ ys)
    → has n (xs ++ ys) ≡ false
    → Distinct (xs ++ n ∷ ys)
Distinct-insert n [] ys d o = (o, d)
Distinct-insert n (x ∷ xs) ys (e, d) o =
    (ground (arith, has-insert x n xs ys), Distinct-insert n xs ys d (ground arith))

pub Distinct-remove :
    (n : Ptr) (xs ys : List Ptr)
    → Distinct (xs ++ n ∷ ys)
    → Distinct (xs ++ ys) × (has n (xs ++ ys) ≡ false)
Distinct-remove n [] ys (o, d) = (d, o)
Distinct-remove n (x ∷ xs) ys (e, d) =
    let rest = Distinct-remove n xs ys d in
    ((ground (arith, has-insert x n xs ys), rest.0), ground (arith, has-insert x n xs ys))

pub Links-of_Circle :
    (h : Heap) (l : Ptr) (xs : List Ptr) (n : Ptr) (ys : List Ptr)
    → Circle h l (xs ++ n ∷ ys)
    → Links h l (xs ++ n ∷ ys) l
Links-of_Circle h l [] n ys k = k
Links-of_Circle h l (x ∷ xs) n ys k = k

pub Circle-of_Links :
    (h : Heap) (l : Ptr) (xs : List Ptr) (n : Ptr) (ys : List Ptr)
    → Links h l (xs ++ n ∷ ys) l
    → Circle h l (xs ++ n ∷ ys)
Circle-of_Links h l [] n ys k = k
Circle-of_Links h l (x ∷ xs) n ys k = k

pub Links-insert :
    (h : Heap) (p : Ptr) (xs ys : List Ptr) (r n : Ptr)
    → Links h p (xs ++ ys) r
    → has p (xs ++ ys) ≡ false
    → has r (xs ++ ys) ≡ false
    → Distinct (xs ++ ys)
    → has n (p ∷ r ∷ (xs ++ ys)) ≡ false
    → Links (linked h (last p xs) n (first ys r)) p (xs ++ n ∷ ys) r
Links-insert h p [] [] r n (e, f) o q d s = ground arith
Links-insert h p [] (y ∷ ys) r n (e, f, k) o q d s = (
  ground arith,
  ground arith,
  (
    ground arith,
    ground arith,
    Links-frame h (linked h p n y) y ys r (λ a i. ground arith) (λ a i. ground arith) k,
  ),
)
Links-insert h p (x ∷ xs) ys r n (e, f, k) o q d s = (
  ground (arith, ne_last p x xs ys),
  ground (arith, ne_first x r xs ys),
  Links-insert h x xs ys r n k d.0 (ground arith) d.1 (ground arith),
)

pub Links-remove :
    (h : Heap) (p : Ptr) (xs ys : List Ptr) (r n : Ptr)
    → Links h p (xs ++ n ∷ ys) r
    → has p (xs ++ ys) ≡ false
    → has r (xs ++ ys) ≡ false
    → Distinct (xs ++ ys)
    → Links (unlinked h (last p xs) (first ys r)) p (xs ++ ys) r
Links-remove h p [] [] r n (e, f, k) o q d = ground arith
Links-remove h p [] (y ∷ ys) r n (e, f, k) o q d = (
  ground arith,
  ground arith,
  Links-frame h (unlinked h p y) y ys r (λ a i. ground arith) (λ a i. ground arith) k.2,
)
Links-remove h p (x ∷ xs) ys r n (e, f, k) o q d = (
  ground (arith, ne_last p x xs ys),
  ground (arith, ne_first x r xs ys),
  Links-remove h x xs ys r n k d.0 (ground arith) d.1,
)

-- What the two pointers of a node hold.
pub Links-around :
    (h : Heap) (p : Ptr) (xs ys : List Ptr) (r n : Ptr)
    → Links h p (xs ++ n ∷ ys) r
    → (h.prev n ≡ last p xs) × (h.next n ≡ first ys r)
Links-around h p [] [] r n (e, f, k) = (f, k.0)
Links-around h p [] (y ∷ ys) r n (e, f, k) = (f, k.0)
Links-around h p (x ∷ xs) ys r n (e, f, k) = Links-around h x xs ys r n k

-- What the pointers at the two ends of a place hold.
pub Links-next_last :
    (h : Heap) (p : Ptr) (xs ys : List Ptr) (r : Ptr)
    → Links h p (xs ++ ys) r
    → h.next (last p xs) ≡ first ys r
Links-next_last h p [] [] r k = k.0
Links-next_last h p [] (y ∷ ys) r k = k.0
Links-next_last h p (x ∷ xs) ys r (e, f, k) = Links-next_last h x xs ys r k

pub Links-prev_end :
    (h : Heap) (p : Ptr) (xs : List Ptr) (r : Ptr) → Links h p xs r → h.prev r ≡ last p xs
Links-prev_end h p [] r k = k.1
Links-prev_end h p (x ∷ xs) r (e, f, k) = Links-prev_end h x xs r k

-- Both neighbours belong to the list or are its sentinel.
pub last-has : (l : Ptr) (xs ys : List Ptr) → has (last l xs) (l ∷ (xs ++ ys)) ≡ true
last-has l [] ys = ground arith
last-has l (x ∷ xs) ys = ground (arith, last-has x xs ys)

pub first-has : (l : Ptr) (xs ys : List Ptr) → has (first ys l) (l ∷ (xs ++ ys)) ≡ true
first-has l xs [] = ground arith
first-has l xs (y ∷ ys) = ground (arith, has-append y xs (y ∷ ys))
