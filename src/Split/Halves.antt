-- ===== src/Split/Halves.antt =====
-- splitItem on an item of a text: two items that read as the one did.
use cert_yjs.Base.{
  ℕ, suc, ◌<◌, ◌≡◌, ◌≢◌, refl, ap, ◌∙◌, Option, none, some, ltb, take, if◌then◌else◌, arith, done,
  panic,
}
use cert_yjs.Item.{Ptr, TypePtr, len}
use cert_yjs.Heap.{Heap, write_item, alloc_item, set_left, set_left?, set_right}
use cert_yjs.YType.Links.{SameLinks}
use cert_yjs.YType.Same.{SameData, data_of, set_right-SameData, set_left?-SameData}
use cert_yjs.Split.{right_half, split_item}
use cert_yjs.Integrate.{connect}

-- The right half allocated and the left one cut, before any link is written.
unfoldable pub cut_heap : Heap → Ptr → ℕ → Heap
unfolding alloc_item write_item right_half
cut_heap h n diff =
    let h1 = (alloc_item h (right_half h n diff)).1 in
    write_item h1 n (record (h1.item_at n) { content = take diff (h1.item_at n).content })

-- Memory after the split.
unfoldable pub split_heap : Heap → Ptr → ℕ → Heap
unfolding cut_heap set_left? set_right
split_heap h n diff =
    let h2 = cut_heap h n diff in
    set_right (set_left? h2 (h2.item_at n).right (some h.next_item)) n (some h.next_item)

pub split_item_lem :
    (h : Heap) (n : Ptr) (diff : ℕ)
    → split_item h n diff
      ≡ (if ltb (len (h.item_at n)) diff then panic else done (h.next_item, split_heap h n diff))
unfolding split_item split_heap
split_item_lem h n diff = refl

-- Where `q` points at its neighbours already, telling them of it is the splice of it behind `n`.
pub tell_neighbours :
    (g : Heap) (t : TypePtr) (n q : Ptr) (right : Option Ptr)
    → n ≢ q
    → (g.item_at q).left ≡ some n
    → (g.item_at q).right ≡ right
    → (g.item_at n).right ≡ right
    → right ≢ some q
    → (p : Ptr)
    → SameLinks (connect g t q (some n)) (set_right (set_left? g right (some q)) n (some q)) p
unfolding connect set_left? set_left set_right write_item
tell_neighbours g t n q none ne l r e far p = (rw e (ground arith), rw e (ground arith))
tell_neighbours g t n q (some s) ne l r e far p =
    let apart : s ≢ q = λ x. far (ap some x) in (rw e (ground arith), rw e (ground arith))

tell-type :
    (g : Heap) (n q : Ptr) (right : Option Ptr) (u : TypePtr)
    → (set_right (set_left? g right (some q)) n (some q)).type_at u ≡ g.type_at u
unfolding set_left? set_left set_right write_item
tell-type g n q none u = refl
tell-type g n q (some s) u = refl

tell-next :
    (g : Heap) (n q : Ptr) (right : Option Ptr)
    → (set_right (set_left? g right (some q)) n (some q)).next_item ≡ g.next_item
unfolding set_left? set_left set_right write_item
tell-next g n q none = refl
tell-next g n q (some s) = refl

pub split_heap-type :
    (h : Heap) (n : Ptr) (diff : ℕ) (u : TypePtr) → (split_heap h n diff).type_at u ≡ h.type_at u
unfolding split_heap cut_heap
split_heap-type h n diff u =
    tell-type (cut_heap h n diff) n h.next_item ((cut_heap h n diff).item_at n).right u

pub split_heap-next :
    (h : Heap) (n : Ptr) (diff : ℕ) → (split_heap h n diff).next_item ≡ suc h.next_item
unfolding split_heap cut_heap
split_heap-next h n diff =
    tell-next (cut_heap h n diff) n h.next_item ((cut_heap h n diff).item_at n).right

module _ (h : Heap) (n : Ptr) (diff : ℕ) (used : n < h.next_item) where
  pub cut_heap-left :
      (cut_heap h n diff).item_at n
      ≡ record (h.item_at n) { content = take diff (h.item_at n).content }
  unfolding cut_heap
  cut_heap-left = ground arith

  pub cut_heap-right : (cut_heap h n diff).item_at h.next_item ≡ right_half h n diff
  unfolding cut_heap
  cut_heap-right = ground arith

  pub cut_heap-other :
      (p : Ptr) → p ≢ n → p < h.next_item → (cut_heap h n diff).item_at p ≡ h.item_at p
  unfolding cut_heap
  cut_heap-other p ne lt = ground arith

  pub cut_heap-SameLinks : (p : Ptr) → p < h.next_item → SameLinks h (cut_heap h n diff) p
  unfolding cut_heap
  cut_heap-SameLinks p lt = (ground arith, ground arith)

  split_heap-SameData : SameData (cut_heap h n diff) (split_heap h n diff)
  unfolding split_heap
  split_heap-SameData p =
      let right = ((cut_heap h n diff).item_at n).right in
      set_right-SameData (set_left? (cut_heap h n diff) right (some h.next_item)) n
        (some h.next_item) p
      ∙ set_left?-SameData (cut_heap h n diff) right (some h.next_item) p

  -- What the split leaves of the item, of the right half, and of every other item.
  pub split-left :
      data_of ((split_heap h n diff).item_at n)
      ≡ data_of (record (h.item_at n) { content = take diff (h.item_at n).content })
  split-left = split_heap-SameData n ∙ ap data_of cut_heap-left

  pub split-right :
      data_of ((split_heap h n diff).item_at h.next_item) ≡ data_of (right_half h n diff)
  split-right = split_heap-SameData h.next_item ∙ ap data_of cut_heap-right

  pub split-other :
      (p : Ptr)
      → p ≢ n
      → p < h.next_item
      → data_of ((split_heap h n diff).item_at p) ≡ data_of (h.item_at p)
  split-other p ne lt = split_heap-SameData p ∙ ap data_of (cut_heap-other p ne lt)
