-- ===== src/Integrate/Delete.antt =====
-- store.deleteNode: a live item of a text becomes a tombstone of it.
use cert_yjs.Base.{
  ℕ, ◌+◌, ◌<◌, ◌≡◌, ◌≢◌, refl, ap, sym, ◌∙◌, true, false, ◌==◌, none, some, List, [], ◌∷◌, ◌++◌,
  bit_and, bit_or, All, length, length-append, u64_mod, sub64, sub64_lem, if◌then◌else◌, arith,
  done, ◌>>=◌, deref, same_to, same_to-at, Bool-cases, inl, inr,
}
use cert_yjs.Item.{
  Ptr, TypePtr, Item, item_deleted, item_countable, len, countable, deleted, indexable,
}
use cert_yjs.Heap.{Heap, YType, write_item, write_type}
use cert_yjs.YType.Chain.{visible}
use cert_yjs.YType.Links.{Links-frame, SameLinks, Fresh}
use cert_yjs.YType.Distinct.{All-right, Distinct-append, Apart-Fresh}
use cert_yjs.YType.Same.{All-every, visible-append}
use cert_yjs.YType.Valid.{IsText}
use cert_yjs.Integrate.{delete_node}

-- The item with the tombstone flag set.
abbrev pub tombstone : Item → Item
tombstone it = record it { flags = bit_or it.flags item_deleted }

flag_set : (f : ℕ) → f < 256 → bit_and (bit_or f item_deleted) item_deleted ≡ 4
unfolding same_to
flag_set = same_to-at _ _ 256 refl

flag_kept :
    (f : ℕ) → f < 256 → bit_and (bit_or f item_deleted) item_countable ≡ bit_and f item_countable
unfolding same_to
flag_kept = same_to-at _ _ 256 refl

pub tombstone-deleted : (it : Item) → it.flags < 256 → deleted (tombstone it) ≡ true
unfolding deleted
tombstone-deleted it b = rw (flag_set it.flags b)

tombstone-countable : (it : Item) → it.flags < 256 → countable (tombstone it) ≡ countable it
unfolding countable
tombstone-countable it b = rw (flag_kept it.flags b)

-- Memory after the item at `n` of the type `t` has been deleted.
abbrev pub deleting : Heap → TypePtr → Ptr → Heap
deleting h t n =
    let g = write_item h n (tombstone (h.item_at n)) in
    write_type g t (record (g.type_at t) { len = sub64 (g.type_at t).len (len (h.item_at n)) })

pub indexable_lem : (it : Item) → countable it ≡ true → deleted it ≡ false → indexable it ≡ true
unfolding indexable
indexable_lem it c d = rw (c, d)

pub indexable_dead : (it : Item) → deleted it ≡ true → indexable it ≡ false
unfolding indexable
indexable_dead it d = rw d (ground arith)

delete_node_lem :
    (h : Heap) (n : Ptr)
    → delete_node h n ≡ (
        if indexable (h.item_at n)
        then (deref (h.item_at n).parent >>= λ t. done (true, deleting h t n))
        else done (false, h))
unfolding delete_node
delete_node_lem h n = refl

module _ (h : Heap) (t : TypePtr) (n : Ptr) where
  pub deleting-other : (p : Ptr) → n ≢ p → (deleting h t n).item_at p ≡ h.item_at p
  unfolding write_item write_type
  deleting-other p ne = ground arith

  pub deleting-at : (deleting h t n).item_at n ≡ tombstone (h.item_at n)
  unfolding write_item write_type
  deleting-at = ground arith

  deleting-type :
      (deleting h t n).type_at t
      ≡ record (h.type_at t) { len = sub64 (h.type_at t).len (len (h.item_at n)) }
  unfolding write_item write_type
  deleting-type = ground arith

  deleting-next : (deleting h t n).next_item ≡ h.next_item
  unfolding write_item write_type
  deleting-next = refl

  pub deleting-SameLinks : (p : Ptr) → SameLinks h (deleting h t n) p
  unfolding write_item write_type
  deleting-SameLinks p = (ground arith, ground arith)

  pub deleting-others : (ps : List Ptr) → Fresh n ps → visible (deleting h t n) ps ≡ visible h ps
  deleting-others [] f = refl
  deleting-others (p ∷ ps) (ne, f) = rw (deleting-other p (λ e. ne (sym e)), deleting-others ps f)

deleting-countable :
    (h : Heap) (t : TypePtr) (n : Ptr)
    → (h.item_at n).flags < 256
    → (p : Ptr) → countable ((deleting h t n).item_at p) ≡ countable (h.item_at p)
deleting-countable h t n b p = elim (Bool-cases (p == n)) [
  | inl e ↦
      let same : p ≡ n = ground arith in
      rw (same, deleting-at h t n) (tombstone-countable (h.item_at n) b)
  | inr e ↦ ap countable (deleting-other h t n p (λ q. ground arith))
]

counted-all :
    (h g : Heap) (ps : List Ptr)
    → ((p : Ptr) → countable (g.item_at p) ≡ countable (h.item_at p))
    → All (λ p. countable (h.item_at p) ≡ true) ps
    → All (λ p. countable (g.item_at p) ≡ true) ps
counted-all h g [] same a = tt
counted-all h g (p ∷ ps) same (c, a) = (same p ∙ c, counted-all h g ps same a)

-- The item is a live one of the text, and the text is not too long.
pub record Deletable (h : Heap) (t : TypePtr) (xs : List Ptr) (n : Ptr) (ys : List Ptr)
    : Type 0 where
  pub text : IsText h t (xs ++ n ∷ ys)
  pub parent : (h.item_at n).parent ≡ some t
  pub live : deleted (h.item_at n) ≡ false
  pub byte : (h.item_at n).flags < 256
  pub small : length (visible h (xs ++ n ∷ ys)) < u64_mod

-- deleteNode on a tombstone answers false and changes nothing.
pub delete_node-tombstone :
    (h : Heap) (n : Ptr) → deleted (h.item_at n) ≡ true → delete_node h n ≡ done (false, h)
delete_node-tombstone h n e = delete_node_lem h n ∙ rw (indexable_dead (h.item_at n) e)

-- The text without the units of the item, which stays in the list.
pub record Removed (h : Heap) (t : TypePtr) (xs : List Ptr) (n : Ptr) (ys : List Ptr) : Type 0 where
  pub g : Heap
  pub runs : delete_node h n ≡ done (true, g)
  pub text : IsText g t (xs ++ n ∷ ys)
  pub reads : visible g (xs ++ n ∷ ys) ≡ visible h xs ++ visible h ys
  pub again : delete_node g n ≡ done (false, g)

module _ {h : Heap} {t : TypePtr} {xs : List Ptr} {n : Ptr} {ys : List Ptr}
    (d : Deletable h t xs n ys) where
  counted-here : countable (h.item_at n) ≡ true
  counted-here = (All-right _ xs (n ∷ ys) d.text.counted).0

  pub delete_node-runs : delete_node h n ≡ done (true, deleting h t n)
  delete_node-runs =
      delete_node_lem h n ∙ rw (indexable_lem (h.item_at n) counted-here d.live, d.parent)

  pub Fresh-front : Fresh n xs
  Fresh-front = let (_, _, a) = Distinct-append xs (n ∷ ys) d.text.distinct in Apart-Fresh xs n ys a

  pub Fresh-back : Fresh n ys
  Fresh-back = let (_, (f, _), _) = Distinct-append xs (n ∷ ys) d.text.distinct in f

  pub visible-deleting : visible (deleting h t n) (xs ++ n ∷ ys) ≡ visible h xs ++ visible h ys
  visible-deleting =
      visible-append (deleting h t n) xs (n ∷ ys)
      ∙ rw (
        deleting-others h t n xs Fresh-front,
        deleting-others h t n ys Fresh-back,
        deleting-at h t n,
        tombstone-deleted (h.item_at n) d.byte,
      )

  pub visible-before :
      length (visible h (xs ++ n ∷ ys)) ≡ length (visible h xs ++ visible h ys) + len (h.item_at n)
  visible-before =
      ap length (visible-append h xs (n ∷ ys))
      ∙ rw (d.live, length-append, length-append, length-append) (omega arith)

  deleting-len : ((deleting h t n).type_at t).len ≡ length (visible (deleting h t n) (xs ++ n ∷ ys))
  deleting-len =
      ap (λ (y : YType). y.len) (deleting-type h t n)
      ∙ rw (d.text.len, visible-deleting)
          (sub64_lem _ _ d.small (omega (arith, visible-before)) ∙ omega (arith, visible-before))

  pub deleting-IsText : IsText (deleting h t n) t (xs ++ n ∷ ys)
  deleting-IsText = record {
    links =
        Links-frame h (deleting h t n) none (xs ++ n ∷ ys) none
          (All-every _ (xs ++ n ∷ ys) (deleting-SameLinks h t n)) d.text.links;
    start = ap (λ (y : YType). y.start) (deleting-type h t n) ∙ d.text.start;
    distinct = d.text.distinct;
    allocated = rw (deleting-next h t n) d.text.allocated;
    fits = rw (deleting-next h t n) d.text.fits;
    counted =
        counted-all h (deleting h t n) (xs ++ n ∷ ys) (deleting-countable h t n d.byte)
          d.text.counted;
    len = deleting-len;
  }

-- deleteNode on a live item of a well-formed text answers true, keeps the text well-formed with
-- the item in its place, and a reader sees the other units and not the item's; deleting it again
-- answers false and changes nothing.
pub delete_node-Removed :
    {h : Heap} {t : TypePtr} {xs : List Ptr} {n : Ptr} {ys : List Ptr}
    → Deletable h t xs n ys
    → Removed h t xs n ys
delete_node-Removed {h} {t} {xs} {n} {ys} d = record {
  g = deleting h t n;
  runs = delete_node-runs d;
  text = deleting-IsText d;
  reads = visible-deleting d;
  again =
      delete_node-tombstone (deleting h t n) n
        (ap deleted (deleting-at h t n) ∙ tombstone-deleted (h.item_at n) d.byte);
}
