-- ===== src/Config/Cleanup/Parts.antt =====
-- src/plugins/config/file.c: what one round of a loop of the clean-up frees.
use netvizd.Common.{◌≡◌, ◌∙◌, inl, inr, true, false, List, [], ◌∷◌, ◌++◌, ◌||◌, ◌==◌, Bool-cases}
use netvizd.NvList.{Ptr, null, Heap}
use netvizd.NvList.Ring.{has, SameOutside}
use netvizd.Config.Cleanup.{Memory}
use netvizd.Config.Cleanup.Steps.{Below}
use netvizd.Config.Cleanup.Blocks.{Freeable}
use netvizd.Config.Cleanup.Rings.{Ring, footprint}

-- The structures `fs` with their texts, and then the blocks `ps`.
abbrev pub owned : (Ptr → List Ptr) → List Ptr → List Ptr → List Ptr
owned s [] ps = ps
owned s (f ∷ fs) ps = s f ++ f ∷ owned s fs ps

-- The lists that the structures `fs` carry, and then the lists `rs`.
abbrev pub carried : (Ptr → List Ring) → List Ptr → List Ring → List Ring
carried ro [] rs = rs
carried ro (f ∷ fs) rs = ro f ++ carried ro fs rs

-- The lists `rs` are freed with their sentinels.
pub record RingsFreed (rs : List Ring) (h g : Heap) : Type 0 where
  pub same : SameOutside (footprint rs) h g
  pub same_payload : g.payload ≡ h.payload
  pub dead : (a : Ptr) → has a (footprint rs) ≡ true → g.live a ≡ false

-- The structure `f` is freed with its texts, and the blocks `qs` are left.
pub record Taken (f : Ptr) (qs : List Ptr) (m m' : Memory) : Type 0 where
  pub strings : m'.strings ≡ m.strings
  pub values : m'.values ≡ m.values
  pub left : Freeable m'.block qs
  pub freed :
      (a : Ptr)
      → (has a (m.strings f) || (a == f)) ≡ true
      → (a == null) ≡ false
      → m'.block a ≡ false
  pub fades : (a : Ptr) → m.block a ≡ false → m'.block a ≡ false
  pub same : (a : Ptr) → (has a (m.strings f) || (a == f)) ≡ false → m'.block a ≡ m.block a

pub SameOutside-trans :
    (xs : List Ptr) (h g i : Heap) → SameOutside xs h g → SameOutside xs g i → SameOutside xs h i
SameOutside-trans xs h g i s t = record {
  same_live = λ a o. t.same_live a o ∙ s.same_live a o;
  same_next = λ a o. t.same_next a o ∙ s.same_next a o;
  same_prev = λ a o. t.same_prev a o ∙ s.same_prev a o;
  same_payload = λ a o. t.same_payload a o ∙ s.same_payload a o;
}

-- What holds outside a part holds outside the whole.
pub off_part : (xs ys : List Ptr) → Below xs ys → (a : Ptr) → has a ys ≡ false → has a xs ≡ false
off_part xs ys b a o = elim (Bool-cases (has a xs)) [ inl e ↦ let i = b a e in cc | inr e ↦ e ]

pub SameOutside-whole :
    (xs ys : List Ptr) (h g : Heap) → Below xs ys → SameOutside xs h g → SameOutside ys h g
SameOutside-whole xs ys h g b s = record {
  same_live = λ a o. s.same_live a (off_part xs ys b a o);
  same_next = λ a o. s.same_next a (off_part xs ys b a o);
  same_prev = λ a o. s.same_prev a (off_part xs ys b a o);
  same_payload = λ a o. s.same_payload a (off_part xs ys b a o);
}
