-- ===== src/NvList.antt =====
-- src/nvlist.h: the circular doubly linked list with a sentinel, over an explicit heap of nodes.
-- Each field of the nodes is a function of the address. `live` says which addresses hold a node;
-- an access to any other address is a fault. Address 0 is `NULL`.
pub mod Ring
pub mod Places
pub mod Insert
pub mod Delete
pub mod Traverse
mod Tests
use netvizd.Common.{ℕ, zero, suc, Bool, true, false, ◌&&◌, ◌||◌, List, [], ◌∷◌, ◌==◌, if◌then◌else◌}

abbrev pub Ptr : Type 0
Ptr = ℕ

pub record Heap : Type 0 where
  pub live : Ptr → Bool
  pub next : Ptr → Ptr
  pub prev : Ptr → Ptr
  pub payload : Ptr → Ptr

-- `NULL`
abbrev pub null : Ptr
null = 0

-- `f` with the value `v` at `p`
abbrev pub update {ℓ} : {A : Type ℓ} → (ℕ → A) → ℕ → A → ℕ → A
update f p v q = if p == q then v else f q

pub data Run (A : Type 0) : Type 0 where
  out_of_fuel fault : Run A
  done : A → Heap → Run A

abbrev pub Action : Type 0 → Type 0
Action A = Heap → Run A

abbrev pub give : {A : Type 0} → A → Action A
give = done

abbrev pub go_on : {A B : Type 0} → Run A → (A → Action B) → Run B
go_on out_of_fuel next = out_of_fuel
go_on fault next = fault
go_on (done a g) next = next a g

infixl 5 ◌>>=◌ ◌>>◌
abbrev pub ◌>>=◌ : {A B : Type 0} → Action A → (A → Action B) → Action B
◌>>=◌ m k h = go_on (m h) k

abbrev pub ◌>>◌ : {B : Type 0} → Action (Unit {0}) → Action B → Action B
m >> k = m >>= λ _. k

-- Reads and writes through a pointer.
abbrev pub get_next : Ptr → Action Ptr
get_next p h = if h.live p then done (h.next p) h else fault

abbrev pub get_prev : Ptr → Action Ptr
get_prev p h = if h.live p then done (h.prev p) h else fault

abbrev pub get_payload : Ptr → Action Ptr
get_payload p h = if h.live p then done (h.payload p) h else fault

abbrev pub put_next : Ptr → Ptr → Action (Unit {0})
put_next p v h = if h.live p then done tt (record h { next = update h.next p v }) else fault

abbrev pub put_prev : Ptr → Ptr → Action (Unit {0})
put_prev p v h = if h.live p then done tt (record h { prev = update h.prev p v }) else fault

abbrev pub put_payload : Ptr → Ptr → Action (Unit {0})
put_payload p v h =
    if h.live p then done tt (record h { payload = update h.payload p v }) else fault

-- `nv_node_new` and `nv_list_new`: `calloc` returns the address `p`, and the node is zeroed.
unfoldable pub node_new : Ptr → Action (Unit {0})
node_new p h = done tt (record {
  live = update h.live p true;
  next = update h.next p null;
  prev = update h.prev p null;
  payload = update h.payload p null;
})

-- `nv_free(n)` of a node
unfoldable pub node_free : Ptr → Action (Unit {0})
node_free p h = if h.live p then done tt (record h { live = update h.live p false }) else fault

-- `set_node_data`
unfoldable pub set_node_data : Ptr → Ptr → Action (Unit {0})
set_node_data p d = put_payload p d

insert_empty : Ptr → Ptr → Action (Unit {0})
insert_empty p n = do put_next p n; put_prev p n; put_next n p; put_prev n p

insert_after : Ptr → Ptr → Ptr → Action (Unit {0})
insert_after p n t = do put_next n t; put_prev n p; put_next p n; put_prev t n

unfoldable pub list_insert : Ptr → Ptr → Action (Unit {0})
unfolding insert_empty insert_after
list_insert p n =
    if p == null || n == null
    then give tt
    else do t ← get_next p; if t == null then insert_empty p n else insert_after p n t

unfoldable pub list_append : Ptr → Ptr → Action (Unit {0})
list_append l n = if l == null || n == null then give tt else do
  t ← get_next l
  if t == null then list_insert l n else do p ← get_prev l; list_insert p n

-- The tail of `list_del`: an emptied list gets back its two `NULL` links.
reset_empty : Ptr → Ptr → Action (Unit {0})
reset_empty p t = do
  dp ← get_payload p
  dt ← get_payload t
  if dp == null && dt == null then (do put_next t null; put_prev t null) else give tt

unfoldable pub list_del : Ptr → Action (Unit {0})
unfolding reset_empty node_free
list_del n = if n == null then give tt else do
  d ← get_payload n
  if d == null then give tt else do
    p ← get_prev n
    t ← get_next n
    put_next p t
    put_prev t p
    reset_empty p t
    node_free n

-- `list_for_each`: the nodes that the loop visits, from `pos` on. One unit of fuel is one test.
visit : ℕ → Ptr → Ptr → Action (List Ptr)
visit zero head pos = λ _. out_of_fuel
visit (suc k) head pos =
    if pos == head || pos == null
    then give []
    else do after ← get_next pos; rest ← visit k head after; give (pos ∷ rest)

unfoldable pub list_for_each : ℕ → Ptr → Action (List Ptr)
unfolding visit
list_for_each fuel head = do pos ← get_next head; visit fuel head pos

-- The loop that frees a list while it walks it: each round deletes the node before the current one.
sweep : ℕ → Ptr → Ptr → Ptr → Action Ptr
sweep zero head t pos = λ _. out_of_fuel
sweep (suc k) head t pos = if pos == head || pos == null then give t else do
  (if t == null then give tt else (do p ← get_prev pos; list_del p))
  after ← get_next pos
  sweep k head pos after

pub list_clear : ℕ → Ptr → Action (Unit {0})
list_clear fuel head = do pos ← get_next head; t ← sweep fuel head null pos; list_del t
