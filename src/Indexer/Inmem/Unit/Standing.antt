-- ===== src/Indexer/Inmem/Unit/Standing.antt =====
-- The leaves of a unit of qmdb/src/indexer/inmem.rs in its buffers, and what a unit is.
use qmdb.Common.{ℕ, ◌^◌, ◌<◌, ◌≡◌, inl, inr, sym, List, [], ◌∷◌, ◌++◌, length}
use qmdb.Indexer.Inmem.BufList.{BufList}
use qmdb.Indexer.Inmem.BufList.Heap.{Slot, IsSlot, Holds, Apart, Written}
use qmdb.Indexer.Inmem.BufList.Room.{IsReady, Before, Written-Before}
use qmdb.Indexer.Inmem.Unit.{IndexUnit}
use qmdb.Indexer.Inmem.Unit.Leaves.{LeafOf, slot_of, tree_of, Ordered}

pub record Stands (bl : BufList) (l : LeafOf) : Type 0 where
  pub slot : IsSlot (slot_of l)
  pub holds : Holds bl (slot_of l)
  pub before : Before bl (slot_of l)
  pub filled : 0 < length l.pairs

abbrev pub AllStand : BufList → List LeafOf → Type 0
AllStand bl [] = Unit {0}
AllStand bl (l ∷ ls) = Stands bl l × AllStand bl ls

abbrev pub ApartFrom : Slot → List LeafOf → Type 0
ApartFrom s [] = Unit {0}
ApartFrom s (l ∷ ls) = Apart s (slot_of l) × ApartFrom s ls

abbrev pub AllApart : List LeafOf → Type 0
AllApart [] = Unit {0}
AllApart (l ∷ ls) = ApartFrom (slot_of l) ls × AllApart ls

-- A unit with these leaves.
pub record IsUnit (u : IndexUnit) (ls : List LeafOf) : Type 0 where
  pub tree : u.bt ≡ tree_of ls
  pub ready : IsReady u.buf_list
  pub stand : AllStand u.buf_list ls
  pub apart : AllApart ls
  pub ordered : Ordered 0 ls (2 ^ 56)

pub AllStand-pull :
    (bl : BufList) (f : List LeafOf) (l : LeafOf) (b : List LeafOf)
    → AllStand bl (f ++ l ∷ b)
    → Stands bl l × AllStand bl (f ++ b)
AllStand-pull bl [] l b a = a
AllStand-pull bl (m ∷ f) l b (s, a) = let (t, rest) = AllStand-pull bl f l b a in (t, (s, rest))

pub AllStand-push :
    (bl : BufList) (f : List LeafOf) (l : LeafOf) (b : List LeafOf)
    → Stands bl l
    → AllStand bl (f ++ b)
    → AllStand bl (f ++ l ∷ b)
AllStand-push bl [] l b s a = (s, a)
AllStand-push bl (m ∷ f) l b s (t, a) = (t, AllStand-push bl f l b s a)

Apart-sym : (s t : Slot) → Apart s t → Apart t s
Apart-sym s t (inl n) = inl (λ e. n (sym e))
Apart-sym s t (inr (inl h)) = inr (inr h)
Apart-sym s t (inr (inr h)) = inr (inl h)

pub ApartFrom-pull :
    (s : Slot) (f : List LeafOf) (l : LeafOf) (b : List LeafOf)
    → ApartFrom s (f ++ l ∷ b)
    → Apart s (slot_of l) × ApartFrom s (f ++ b)
ApartFrom-pull s [] l b a = a
ApartFrom-pull s (m ∷ f) l b (h, a) = let (t, rest) = ApartFrom-pull s f l b a in (t, (h, rest))

pub ApartFrom-push :
    (s : Slot) (f : List LeafOf) (l : LeafOf) (b : List LeafOf)
    → Apart s (slot_of l)
    → ApartFrom s (f ++ b)
    → ApartFrom s (f ++ l ∷ b)
ApartFrom-push s [] l b h a = (h, a)
ApartFrom-push s (m ∷ f) l b h (t, a) = (t, ApartFrom-push s f l b h a)

pub AllApart-pull :
    (f : List LeafOf) (l : LeafOf) (b : List LeafOf)
    → AllApart (f ++ l ∷ b)
    → ApartFrom (slot_of l) (f ++ b) × AllApart (f ++ b)
AllApart-pull [] l b a = a
AllApart-pull (m ∷ f) l b (h, a) =
    let (one, rest) = AllApart-pull f l b a in
    let (side, others) = ApartFrom-pull (slot_of m) f l b h in
    ((Apart-sym (slot_of m) (slot_of l) side, one), (others, rest))

pub AllApart-push :
    (f : List LeafOf) (l : LeafOf) (b : List LeafOf)
    → ApartFrom (slot_of l) (f ++ b)
    → AllApart (f ++ b)
    → AllApart (f ++ l ∷ b)
AllApart-push [] l b h a = (h, a)
AllApart-push (m ∷ f) l b (side, h) (others, a) = (
  ApartFrom-push (slot_of m) f l b (Apart-sym (slot_of l) (slot_of m) side) others,
  AllApart-push f l b h a,
)

-- A leaf that is written back leaves the others where they are.
pub Written-AllStand :
    (bl bl' : BufList) (s : Slot) (bytes : List ℕ) (ls : List LeafOf)
    → Written bl bl' s bytes
    → ApartFrom s ls
    → AllStand bl ls
    → AllStand bl' ls
Written-AllStand bl bl' s bytes [] w h a = tt
Written-AllStand bl bl' s bytes (l ∷ ls) w (side, h) (st, a) = (
  record {
    slot = st.slot;
    holds = w.others (slot_of l) st.slot side st.holds;
    before = Written-Before bl bl' s bytes (slot_of l) w st.before;
    filled = st.filled;
  },
  Written-AllStand bl bl' s bytes ls w h a,
)
