-- ===== src/Text/Erase.antt =====
-- DeleteIn on a text of items of one unit each.
use cert_yjs.Base.{
  ℕ, zero, suc, ◌<◌, ◌≡◌, refl, ap, sym, subst, ◌∙◌, true, false, Option, none, some, List, [], ◌∷◌,
  ◌++◌, ◌==◌, All, append_assoc, append-nil, length, drop, u64_mod, sub64, sub64_lem, ltb,
  if◌then◌else◌, arith, Run, done, ◌>>=◌,
}
use cert_yjs.Item.{Ptr, TypePtr, Item, len, deleted, indexable}
use cert_yjs.Heap.{Heap}
use cert_yjs.YType.Chain.{visible}
use cert_yjs.YType.Links.{head_or, Fresh, Links, Links-append_right}
use cert_yjs.YType.Distinct.{All-right}
use cert_yjs.YType.Same.{visible-append}
use cert_yjs.YType.Valid.{IsText}
use cert_yjs.Store.{Store}
use cert_yjs.Split.{split_node}
use cert_yjs.Integrate
use cert_yjs.Integrate.Delete.{
  Deletable, deleting, deleting-at, deleting-other, deleting-others, delete_node-runs, Fresh-front,
  Fresh-back, tombstone, tombstone-deleted, indexable_lem, indexable_dead,
}
use cert_yjs.Transaction
use cert_yjs.Transaction.{Transaction, record_delete}
use cert_yjs.Text.{delete_step, delete_loop}

-- An item of `t` that a deletion takes whole.
abbrev pub Whole : Heap → TypePtr → Ptr → Type 0
Whole h t p =
    ((h.item_at p).parent ≡ some t) × ((h.item_at p).flags < 256) × (len (h.item_at p) ≡ 1)

delete_loop-some :
    (k : ℕ) (tr : Transaction) (remaining : ℕ) (n : Ptr)
    → delete_loop (suc k) tr remaining (some n) ≡ (
        if remaining == 0
        then done tr
        else (delete_step tr n remaining >>= λ out.
            delete_loop k out.1 out.0 ((out.1).store.heap.item_at n).right))
unfolding delete_loop
delete_loop-some k tr remaining n = refl

pub delete_loop_zero :
    (k : ℕ) (tr : Transaction) (cur : Option Ptr) → delete_loop (suc k) tr 0 cur ≡ done tr
unfolding delete_loop
delete_loop_zero k tr none = refl
delete_loop_zero k tr (some n) = refl

delete_loop_round :
    (k : ℕ) (tr : Transaction) (r : ℕ) (n : Ptr) (r' : ℕ) (tr1 : Transaction) (cur : Option Ptr)
    → delete_step tr n (suc r) ≡ done (r', tr1)
    → (tr1.store.heap.item_at n).right ≡ cur
    → delete_loop (suc k) tr (suc r) (some n) ≡ delete_loop k tr1 r' cur
delete_loop_round k tr r n r' tr1 cur e next =
    let more : (suc r == 0) ≡ false = ground arith in
    delete_loop-some k tr (suc r) n ∙ rw (more, e) (ap (λ c. delete_loop k tr1 r' c) next)

-- The halves of a round, as it branches.
abbrev cut_at : Transaction → Ptr → ℕ → Run Store
cut_at tr n remaining =
    if ltb remaining (len (tr.store.heap.item_at n))
    then (split_node tr.store n remaining >>= λ out. done out.1)
    else done tr.store

delete_step_lem :
    (tr : Transaction) (n : Ptr) (remaining : ℕ)
    → delete_step tr n remaining ≡ (
        if indexable (tr.store.heap.item_at n)
        then (cut_at tr n remaining >>= λ s.
            Transaction.delete_node (record tr { store = s }) n >>= λ tr'.
            done (sub64 remaining (len (tr'.store.heap.item_at n)), tr'))
        else done (remaining, tr))
unfolding delete_step
delete_step_lem tr n remaining = refl

-- A tombstone is passed.
delete_step_dead :
    (tr : Transaction) (n : Ptr) (remaining : ℕ)
    → deleted (tr.store.heap.item_at n) ≡ true
    → delete_step tr n remaining ≡ done (remaining, tr)
delete_step_dead tr n remaining d =
    delete_step_lem tr n remaining ∙ rw (indexable_dead (tr.store.heap.item_at n) d)

-- The transaction after the live item at `n` has been deleted.
abbrev pub erased : Transaction → TypePtr → Ptr → Transaction
erased tr t n =
    record_delete (record tr { store = record (tr.store) { heap = deleting tr.store.heap t n } }) n

delete_node_run :
    (tr : Transaction) (n : Ptr) (h : Heap)
    → Integrate.delete_node tr.store.heap n ≡ done (true, h)
    → Transaction.delete_node tr n
      ≡ done (record_delete (record tr { store = record (tr.store) { heap = h } }) n)
unfolding Transaction.delete_node
delete_node_run tr n h e = rw e refl

pub erased-heap :
    (tr : Transaction) (t : TypePtr) (n : Ptr)
    → (erased tr t n).store.heap ≡ deleting tr.store.heap t n
unfolding record_delete
erased-heap tr t n = refl

delete_step_live :
    (tr : Transaction) (t : TypePtr) (xs : List Ptr) (n : Ptr) (ys : List Ptr) (r : ℕ)
    → Deletable tr.store.heap t xs n ys
    → len (tr.store.heap.item_at n) ≡ 1
    → suc r < u64_mod
    → delete_step tr n (suc r) ≡ done (r, erased tr t n)
delete_step_live tr t xs n ys r d one small =
    let it = tr.store.heap.item_at n in
    let live : indexable it ≡ true =
      indexable_lem it (All-right _ xs (n ∷ ys) d.text.counted).0 d.live in
    let whole : ltb (suc r) (len it) ≡ false = rw one (ground arith) in
    let left : sub64 (suc r) (len ((erased tr t n).store.heap.item_at n)) ≡ r =
      rw (erased-heap, deleting-at tr.store.heap t n, one)
        (sub64_lem _ _ small (omega arith) ∙ omega arith) in
    delete_step_lem tr n (suc r)
    ∙ rw (live, whole, delete_node_run tr n (deleting tr.store.heap t n) (delete_node-runs d), left)
        refl

pub Whole-deleting :
    (h : Heap) (t : TypePtr) (n : Ptr) (ys : List Ptr)
    → Fresh n ys
    → All (Whole h t) ys
    → All (Whole (deleting h t n) t) ys
Whole-deleting h t n [] f a = tt
Whole-deleting h t n (p ∷ ys) (ne, f) (w, a) = (
  subst (λ it. (it.parent ≡ some t) × (it.flags < 256) × (len it ≡ 1))
      (sym (deleting-other h t n p (λ e. ne (sym e)))) w,
  Whole-deleting h t n ys f a,
)

drop-one : (us vs : List ℕ) (r : ℕ) → length us ≡ 1 → drop (suc r) (us ++ vs) ≡ drop r vs
drop-one [] vs r e = absurd (omega (arith, e))
drop-one (u ∷ []) vs r e = refl
drop-one (u ∷ v ∷ us) vs r e = absurd (omega (arith, e))

pub drop_nil : (n : ℕ) → drop {A = ℕ} n [] ≡ []
drop_nil zero = refl
drop_nil (suc n) = refl

-- What the loop leaves behind: the text with the same items, which reads as before without the
-- units that were deleted.
pub record Erased (k : ℕ) (tr : Transaction) (t : TypePtr) (xs ys : List Ptr) (remaining : ℕ)
    : Type 0 where
  pub tr' : Transaction
  pub runs : delete_loop k tr remaining (head_or ys none) ≡ done tr'
  pub text : IsText tr'.store.heap t (xs ++ ys)
  pub reads :
      visible tr'.store.heap (xs ++ ys)
      ≡ visible tr.store.heap xs ++ drop remaining (visible tr.store.heap ys)

-- A round that goes on at the next item.
module _ (k : ℕ) (tr : Transaction) (t : TypePtr) (xs : List Ptr) (n : Ptr) (ys : List Ptr)
    (links : Links tr.store.heap none (xs ++ n ∷ ys) none) where
  next_item : (tr.store.heap.item_at n).right ≡ head_or ys none
  next_item = (Links-append_right tr.store.heap none xs (n ∷ ys) none links).1

  pub regroup : (xs ++ n ∷ []) ++ ys ≡ xs ++ n ∷ ys
  regroup = append_assoc xs (n ∷ []) ys

  pub Erased-dead :
      (r : ℕ)
      → deleted (tr.store.heap.item_at n) ≡ true
      → Erased k tr t (xs ++ n ∷ []) ys (suc r)
      → Erased (suc k) tr t xs (n ∷ ys) (suc r)
  Erased-dead r d e = record {
    tr' = e.tr';
    runs =
        delete_loop_round k tr r n (suc r) tr (head_or ys none) (delete_step_dead tr n (suc r) d)
          next_item
        ∙ e.runs;
    text = subst (IsText (e.tr').store.heap t) regroup e.text;
    reads =
        ap (visible (e.tr').store.heap) (sym regroup)
        ∙ e.reads
        ∙ rw (visible-append, d, append-nil) refl;
  }

  pub Erased-live :
      (r : ℕ) (d : Deletable tr.store.heap t xs n ys)
      → len (tr.store.heap.item_at n) ≡ 1
      → suc r < u64_mod
      → Erased k (erased tr t n) t (xs ++ n ∷ []) ys r
      → Erased (suc k) tr t xs (n ∷ ys) (suc r)
  Erased-live r d one small e =
      let h = tr.store.heap in
      let g = deleting h t n in
      let there : g.item_at n ≡ tombstone (h.item_at n) = deleting-at h t n in
      let front : visible g (xs ++ n ∷ []) ≡ visible h xs =
        visible-append g xs (n ∷ [])
        ∙ rw
            (
              deleting-others h t n xs (Fresh-front d),
              there,
              tombstone-deleted (h.item_at n) d.byte,
              append-nil,
            )
            refl in
      let back : visible g ys ≡ visible h ys = deleting-others h t n ys (Fresh-back d) in
      record {
        tr' = e.tr';
        runs =
            delete_loop_round k tr r n r (erased tr t n) (head_or ys none)
              (delete_step_live tr t xs n ys r d one small)
              (ap (λ (x : Heap). (x.item_at n).right) (erased-heap tr t n)
                ∙ ap (λ (it : Item). it.right) there
                ∙ next_item)
            ∙ e.runs;
        text = subst (IsText (e.tr').store.heap t) regroup e.text;
        reads =
            ap (visible (e.tr').store.heap) (sym regroup)
            ∙ e.reads
            ∙ ap (λ x. visible x (xs ++ n ∷ []) ++ drop r (visible x ys)) (erased-heap tr t n)
            ∙ rw (front, back)
                (ap (λ l. visible h xs ++ l)
                  (sym (rw d.live (drop-one (h.item_at n).content (visible h ys) r one))));
      }
