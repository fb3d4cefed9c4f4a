-- ===== src/Config/Cleanup/Rings.antt =====
-- src/plugins/config/file.c: several lists in one heap, none of which shares a node with another.
use netvizd.Common.{◌≡◌, refl, inl, inr, true, false, List, [], ◌∷◌, ◌++◌, ◌||◌, arith, Bool-cases}
use netvizd.NvList.{Ptr, Heap}
use netvizd.NvList.Ring.{has, has-append, IsRing, SameOutside}
use netvizd.Config.Cleanup.Steps.{IsRing-Agree}

-- A sentinel and the nodes of its list.
abbrev pub Ring : Type 0
Ring = Ptr × List Ptr

abbrev pub footprint : List Ring → List Ptr
footprint [] = []
footprint ((l, xs) ∷ rs) = (l ∷ xs) ++ footprint rs

abbrev pub AllRings : Heap → List Ring → Type 0
AllRings h [] = Unit {0}
AllRings h ((l, xs) ∷ rs) = IsRing h l xs × AllRings h rs

-- None of the addresses belongs to one of the lists.
abbrev pub Clear : List Ptr → List Ring → Type 0
Clear xs rs = (a : Ptr) → has a xs ≡ true → has a (footprint rs) ≡ false

abbrev pub Apart : List Ring → Type 0
Apart [] = Unit {0}
Apart ((l, xs) ∷ rs) = Clear (l ∷ xs) rs × Apart rs

pub has-footprint :
    (a : Ptr) (rs qs : List Ring)
    → has a (footprint (rs ++ qs)) ≡ (has a (footprint rs) || has a (footprint qs))
has-footprint a [] qs = refl
has-footprint a ((l, xs) ∷ rs) qs =
    let rest = has-footprint a rs qs in
    let left = has-append a xs (footprint rs) in
    let right = has-append a xs (footprint (rs ++ qs)) in ground arith

pub AllRings-append :
    (h : Heap) (rs qs : List Ring) → AllRings h (rs ++ qs) → AllRings h rs × AllRings h qs
AllRings-append h [] qs k = (tt, k)
AllRings-append h ((l, xs) ∷ rs) qs (r, k) =
    let rest = AllRings-append h rs qs k in ((r, rest.0), rest.1)

pub Apart-append : (rs qs : List Ring) → Apart (rs ++ qs) → Clear (footprint rs) qs × Apart qs
Apart-append [] qs k = (λ a i. cc, k)
Apart-append ((l, xs) ∷ rs) qs (c, k) =
    let rest = Apart-append rs qs k in
    (
      λ a i. elim (Bool-cases (has a (footprint rs))) [
        | inl e ↦ rest.0 a e
        | inr e ↦
            let split = has-append a xs (footprint rs) in
            let whole = has-footprint a rs qs in let off = c a (ground arith) in ground arith
      ],
      rest.1,
    )

pub AllRings-frame :
    (zs : List Ptr) (rs : List Ring) (h g : Heap)
    → Clear zs rs
    → SameOutside zs h g
    → AllRings h rs
    → AllRings g rs
AllRings-frame zs [] h g c s k = tt
AllRings-frame zs ((l, xs) ∷ rs) h g c s (r, k) =
    let off : (a : Ptr) → has a (footprint ((l, xs) ∷ rs)) ≡ true → has a zs ≡ false =
      λ a i. elim (Bool-cases (has a zs)) [ inl e ↦ let o = c a e in cc | inr e ↦ e ] in
    let here : (a : Ptr) → has a (l ∷ xs) ≡ true → has a zs ≡ false =
      λ a i. off a (let split = has-append a xs (footprint rs) in ground arith) in
    (
      IsRing-Agree h g l xs
          (record {
            same_live = λ a i. s.same_live a (here a i);
            same_next = λ a i. s.same_next a (here a i);
            same_prev = λ a i. s.same_prev a (here a i);
            same_payload = λ a i. s.same_payload a (here a i);
          })
          r,
      AllRings-frame zs rs h g
          (λ a i. let o = c a i in let split = has-append a xs (footprint rs) in ground arith) s k,
    )
