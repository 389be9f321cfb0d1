-- ===== src/Text/Delete.antt =====
-- DeleteIn as a whole, on a text of items of one unit each.
use cert_yjs.Base.{
  ℕ, zero, suc, ◌≤◌, ◌<◌, ◌≡◌, refl, ap, sym, subst, ◌∙◌, false, none, some, List, [], ◌∷◌, ◌++◌,
  All, inl, inr, append_assoc, length, length-append, take, drop, u64_mod, arith, done, ◌>>=◌,
  Bool-cases,
}
use cert_yjs.Item.{Ptr, TypePtr, deleted}
use cert_yjs.Heap.{Heap}
use cert_yjs.YType.{find_pos, text}
use cert_yjs.YType.Chain.{visible, text-visible}
use cert_yjs.YType.Links.{head_or, last_or}
use cert_yjs.YType.Distinct.{All-right}
use cert_yjs.YType.Same.{visible-append}
use cert_yjs.YType.Valid.{IsText, IsText-IsList}
use cert_yjs.YType.Position.{find_pos-Position}
use cert_yjs.Integrate.Delete.{
  Deletable, deleting, Fresh-back, deleting-IsText, visible-deleting, visible-before,
}
use cert_yjs.Transaction.{Transaction}
use cert_yjs.Text.{normalize, delete_loop, delete_in}
use cert_yjs.Text.Place.{normalize_zero, parts}
use cert_yjs.Text.Erase.{
  Whole, Whole-deleting, Erased, Erased-dead, Erased-live, drop_nil, delete_loop_zero, erased,
  erased-heap,
}

delete_loop-none : (k : ℕ) (tr : Transaction) (r : ℕ) → delete_loop (suc k) tr r none ≡ done tr
unfolding delete_loop
delete_loop-none k tr r = refl

-- The live item that the loop is at can be deleted.
at_item :
    (h : Heap) (t : TypePtr) (xs : List Ptr) (n : Ptr) (ys : List Ptr)
    → IsText h t (xs ++ n ∷ ys)
    → Whole h t n
    → deleted (h.item_at n) ≡ false
    → length (visible h (xs ++ n ∷ ys)) < u64_mod
    → Deletable h t xs n ys
at_item h t xs n ys v (parent, byte, one) live small = record {
  text = v;
  parent = parent;
  live = live;
  byte = byte;
  small = small;
}

shorter :
    {h : Heap} {t : TypePtr} {xs : List Ptr} {n : Ptr} {ys : List Ptr} (d : Deletable h t xs n ys)
    → length (visible (deleting h t n) ((xs ++ n ∷ []) ++ ys)) < u64_mod
shorter {h} {t} {xs} {n} {ys} d =
    let same = ap (λ ps. length (visible (deleting h t n) ps)) (append_assoc xs (n ∷ []) ys) in
    let after = ap length (visible-deleting d) in
    let before = visible-before d in let small = d.small in omega arith

-- The loop ends, keeps the text well-formed, and takes the units from the cursor on.
delete_loop-Erased :
    (k : ℕ) (tr : Transaction) (t : TypePtr) (xs ys : List Ptr) (r : ℕ)
    → length ys < k
    → IsText tr.store.heap t (xs ++ ys)
    → All (Whole tr.store.heap t) ys
    → length (visible tr.store.heap (xs ++ ys)) < u64_mod
    → r < u64_mod
    → Erased k tr t xs ys r
delete_loop-Erased zero tr t xs ys r b v w small rs = absurd (omega arith)
delete_loop-Erased (suc k) tr t xs [] r b v w small rs = record {
  tr' = tr;
  runs = delete_loop-none k tr r;
  text = v;
  reads = visible-append tr.store.heap xs [] ∙ rw (drop_nil r) refl;
}
delete_loop-Erased (suc k) tr t xs (n ∷ ys) zero b v w small rs = record {
  tr' = tr;
  runs = delete_loop_zero k tr (some n);
  text = v;
  reads = visible-append tr.store.heap xs (n ∷ ys);
}
delete_loop-Erased (suc k) tr t xs (n ∷ ys) (suc r) b v (here, w) small rs =
    let h = tr.store.heap in
    let group = sym (append_assoc xs (n ∷ []) ys) in
    elim (Bool-cases (deleted (h.item_at n))) [
      | inl dead ↦ Erased-dead k tr t xs n ys v.links r dead (
          delete_loop-Erased k tr t (xs ++ n ∷ []) ys (suc r) (omega arith)
            (subst (IsText h t) group v) w
            (subst (λ ps. length (visible h ps) < u64_mod) group small) rs)
      | inr live ↦
          let d = at_item h t xs n ys v here live small in
          let heap = sym (erased-heap tr t n) in
          Erased-live k tr t xs n ys v.links r d here.2 rs (
            delete_loop-Erased k (erased tr t n) t (xs ++ n ∷ []) ys r (omega arith)
              (subst (λ x. IsText x t ((xs ++ n ∷ []) ++ ys)) heap
                (subst (IsText (deleting h t n) t) group (deleting-IsText d)))
              (subst (λ x. All (Whole x t) ys) heap (Whole-deleting h t n ys (Fresh-back d) w))
              (subst (λ x. length (visible x ((xs ++ n ∷ []) ++ ys)) < u64_mod) heap (shorter d))
              (omega arith))
    ]

delete_in_lem :
    (tr : Transaction) (t : TypePtr) (index count : ℕ)
    → delete_in tr t index count ≡ (
        find_pos tr.store.heap t index >>= λ pos. normalize tr.store pos.0 pos.1 pos.2 >>= λ place.
        delete_loop
          (suc (suc place.2.heap.next_item))
          (record tr { store = place.2 })
          count
          place.1)
unfolding delete_in
delete_in_lem tr t index count = refl

-- What a deletion leaves behind: the same items, which read as the old text without the units.
pub record Deletes (tr : Transaction) (t : TypePtr) (ps : List Ptr) (index count : ℕ) : Type 0 where
  pub tr' : Transaction
  pub runs : delete_in tr t index count ≡ done tr'
  pub valid : IsText tr'.store.heap t ps
  pub reads :
      text tr'.store.heap t
      ≡ done (
          take index (visible tr.store.heap ps)
          ++ drop count (drop index (visible tr.store.heap ps)))

module _ (tr : Transaction) (t : TypePtr) (ps : List Ptr) (index count : ℕ)
    (v : IsText tr.store.heap t ps) (all : All (Whole tr.store.heap t) ps)
    (le : index ≤ length (visible tr.store.heap ps))
    (small : length (visible tr.store.heap ps) < u64_mod) (counts : count < u64_mod) where
  -- The boundary is there: no item is long enough for a cut.
  Boundary-Deletes :
      (front back : List Ptr)
      → front ++ back ≡ ps
      → find_pos tr.store.heap t index ≡ done (last_or none front, head_or back none, 0)
      → length (visible tr.store.heap front) ≡ index
      → Deletes tr t ps index count
  Boundary-Deletes front back whole found at =
      let h = tr.store.heap in
      let (b, a) =
        parts (visible h front) (visible h back) (visible h ps) index
          (ap (visible h) (sym whole) ∙ visible-append h front back) at in
      let v' : IsText h t (front ++ back) = subst (IsText h t) (sym whole) v in
      let fits : length back ≤ h.next_item =
        let l = length-append front back in let f = v'.fits in omega arith in
      let e =
        delete_loop-Erased (suc (suc h.next_item)) tr t front back count (omega arith) v'
          (All-right (Whole h t) front back (subst (All (Whole h t)) (sym whole) all))
          (subst (λ qs. length (visible h qs) < u64_mod) (sym whole) small) counts in
      let valid : IsText (e.tr').store.heap t ps =
        subst (IsText (e.tr').store.heap t) whole e.text in
      record {
        tr' = e.tr';
        runs =
            delete_in_lem tr t index count
            ∙ rw (found, normalize_zero tr.store (last_or none front) (head_or back none)) e.runs;
        valid = valid;
        reads =
            text-visible (e.tr').store.heap t ps (IsText-IsList valid)
            ∙ ap done (
                ap (visible (e.tr').store.heap) (sym whole)
                ∙ e.reads
                ∙ ap (λ l. l ++ drop count (visible h back)) b
                ∙ ap (λ l. take index (visible h ps) ++ drop count l) a);
      }

  -- On a well-formed text whose items are one unit long each and belong to it, as InsertIn and
  -- splitStructs make them, at an index within the text, with fewer than 2^64 units: DeleteIn
  -- of any count ends without a panic, keeps the items and the text well-formed, and Text then
  -- reads as the old text without that many units from the index on, or without all of them
  -- where the text ends before.
  pub delete_in-Deletes : Deletes tr t ps index count
  delete_in-Deletes =
      let p = find_pos-Position tr.store.heap t ps index v le (omega arith) in
      elim p.cut [
        | inl (none_over, at) ↦
            Boundary-Deletes p.front p.back p.whole
              (p.runs ∙ ap (λ o. done (last_or none p.front, head_or p.back none, o)) none_over) at
        | inr (ws, q, e, live, pos, inside, sum) ↦ absurd (
            let here =
              (All-right (Whole tr.store.heap t) ws (q ∷ p.back) (
                subst (All (Whole tr.store.heap t))
                  (sym p.whole ∙ ap (λ zs. zs ++ p.back) e ∙ append_assoc ws (q ∷ []) p.back)
                  all)).0 in
            let one = here.2 in omega arith)
      ]
