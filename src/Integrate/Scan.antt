-- ===== src/Integrate/Scan.antt =====
-- Integrating any item: the scan for its place ends, and the place lies between the neighbours
-- that the item was created with.
use cert_yjs.Base.{
  ℕ, zero, suc, ◌≤◌, ◌<◌, ◌≡◌, refl, ap, sym, subst, ◌∙◌, Bool, true, false, Option, none, some,
  List, [], ◌∷◌, ◌++◌, ◌⊎◌, ◌||◌, ◌&&◌, not, Bool-cases, inl, inr, append_assoc, append-nil, length,
  if◌then◌else◌, arith, Run, done,
}
use cert_yjs.Span.{IdSpan}
use cert_yjs.Item.{Ptr, TypePtr, Item, len}
use cert_yjs.Heap.{Heap}
use cert_yjs.Store.{is_found}
use cert_yjs.YType.Links.{head_or, last_or, Links, Links-append_right}
use cert_yjs.Integrate.{
  Verdict, leave, stay, take_over, verdict, item_ptr_equal, scan_loop, scan_conflicts,
  find_integration_left, first_conflict, right_is_null_or_has_left, left_has_other_right,
}
use cert_yjs.Integrate.Connect.{snoc-cases, last_or-snoc}
use cert_yjs.Integrate.Local.{item_ptr_equal_refl}

-- The anchor lies behind `ls` and some of `ms`.
pub record Within (ls ms : List Ptr) (r : Run (Option Ptr)) : Type 0 where
  pub front : List Ptr
  pub back : List Ptr
  pub whole : ms ≡ front ++ back
  pub runs : r ≡ done (last_or none (ls ++ front))

Within-here : (ls ms : List Ptr) → Within ls ms (done (last_or none ls))
Within-here ls ms = record {
  front = [];
  back = ms;
  whole = refl;
  runs = ap (λ l. done (last_or none l)) (sym (append-nil ls));
}

-- The anchor moves behind `ms` and the conflict `c`.
Within-over :
    (ls ms : List Ptr) (c : Ptr) (bs : List Ptr) (r : Run (Option Ptr))
    → Within (ls ++ (ms ++ c ∷ [])) bs r
    → Within ls (ms ++ c ∷ bs) r
Within-over ls ms c bs r w = record {
  front = (ms ++ c ∷ []) ++ w.front;
  back = w.back;
  whole =
      ap (λ l. ms ++ c ∷ l) w.whole
      ∙ sym (append_assoc ms (c ∷ []) (w.front ++ w.back))
      ∙ sym (append_assoc (ms ++ c ∷ []) w.front w.back);
  runs = w.runs ∙ ap (λ l. done (last_or none l)) (append_assoc ls (ms ++ c ∷ []) w.front);
}

Verdict-cases : (v : Verdict) → (v ≡ Verdict.leave) ⊎ ((v ≡ Verdict.stay) ⊎ (v ≡ Verdict.take_over))
Verdict-cases Verdict.leave = inl refl
Verdict-cases Verdict.stay = inr (inl refl)
Verdict-cases Verdict.take_over = inr (inr refl)

abbrev span_of : Item → IdSpan
span_of it = record { id = it.id; len = len it }

scan_loop-some :
    (k : ℕ) (h : Heap) (it : Item) (left : Option Ptr) (c : Ptr) (right : Option Ptr)
    (before conflicting : List IdSpan)
    → scan_loop (suc k) h it left (some c) right before conflicting ≡ (
        let ci = h.item_at c in
        let before' = before ++ span_of ci ∷ [] in
        let conflicting' = conflicting ++ span_of ci ∷ [] in
        if item_ptr_equal h (some c) right
        then done left
        else elim (verdict it ci before' conflicting') [
          | leave ↦ done left
          | stay ↦ scan_loop k h it left ci.right right before' conflicting'
          | take_over ↦ scan_loop k h it (some c) ci.right right before' []
        ])
unfolding scan_loop
scan_loop-some k h it left c right before conflicting = refl

scan_loop_right :
    (k : ℕ) (h : Heap) (it : Item) (left right : Option Ptr) (before conflicting : List IdSpan)
    → scan_loop (suc k) h it left right right before conflicting ≡ done left
unfolding scan_loop
scan_loop_right k h it left none before conflicting = refl
scan_loop_right k h it left (some r) before conflicting = rw (item_ptr_equal_refl h (some r))

last_or-over : (ls ms : List Ptr) (c : Ptr) → last_or none (ls ++ (ms ++ c ∷ [])) ≡ some c
last_or-over ls ms c =
    ap (last_or none) (sym (append_assoc ls ms (c ∷ []))) ∙ last_or-snoc none (ls ++ ms) c

-- The spans that the loop has seen once it has passed `c`.
abbrev seen : Heap → Ptr → List IdSpan → List IdSpan
seen h c spans = spans ++ span_of (h.item_at c) ∷ []

Within-assoc :
    (ls ms : List Ptr) (c : Ptr) (bs : List Ptr) (r : Run (Option Ptr))
    → Within ls ((ms ++ c ∷ []) ++ bs) r
    → Within ls (ms ++ c ∷ bs) r
Within-assoc ls ms c bs r w = rw append_assoc at w

-- One round at the conflict `c`, from what its two ways on come to.
scan_round :
    (k : ℕ) (h : Heap) (it : Item) (left : Option Ptr) (c : Ptr) (right : Option Ptr)
    (before conflicting : List IdSpan) (ls ms : List Ptr)
    → Within ls ms (done left)
    → Within ls ms
        (scan_loop k h it left (h.item_at c).right right (seen h c before) (seen h c conflicting))
    → Within ls ms (scan_loop k h it (some c) (h.item_at c).right right (seen h c before) [])
    → Within ls ms (scan_loop (suc k) h it left (some c) right before conflicting)
scan_round k h it left c right before conflicting ls ms here stays over =
    rw (scan_loop-some k h it left c right before conflicting)
      (elim (Bool-cases (item_ptr_equal h (some c) right)) [
        | inl e ↦ rw e here
        | inr e ↦
            rw e
              (elim (Verdict-cases
                (verdict it (h.item_at c) (seen h c before) (seen h c conflicting))) [
                  | inl v ↦ rw v here
                  | inr (inl v) ↦ rw v stays
                  | inr (inr v) ↦ rw v over
                ])
      ])

-- The loop, with `ms` between the anchor and the conflict, and `bs` from there to the right.
scan_loop-Within :
    (k : ℕ) (h : Heap) (it : Item) (ls ms bs rs : List Ptr) (before conflicting : List IdSpan)
    → Links h (last_or none (ls ++ ms)) (bs ++ rs) none
    → length bs < k
    → Within ls (ms ++ bs) (
        scan_loop k h it
          (last_or none ls)
          (head_or (bs ++ rs) none)
          (head_or rs none)
          before
          conflicting)
scan_loop-Within zero h it ls ms bs rs before conflicting l b = absurd (omega arith)
scan_loop-Within (suc k) h it ls ms [] rs before conflicting l b =
    rw (scan_loop_right k h it (last_or none ls) (head_or rs none) before conflicting)
      (Within-here ls (ms ++ []))
scan_loop-Within (suc k) h it ls ms (c ∷ bs) rs before conflicting (_, next, l) b =
    let right = head_or rs none in
    let last = last_or-over ls ms c in
    let stays =
      Within-assoc ls ms c bs
        (scan_loop k h it (last_or none ls) (head_or (bs ++ rs) none) right (seen h c before)
          (seen h c conflicting))
        (scan_loop-Within k h it ls (ms ++ c ∷ []) bs rs (seen h c before) (seen h c conflicting)
          (subst (λ o. Links h o (bs ++ rs) none) (sym last) l) (omega (arith, b))) in
    let over =
      Within-over ls ms c bs
        (scan_loop k h it (last_or none (ls ++ (ms ++ c ∷ []))) (head_or (bs ++ rs) none) right
          (seen h c before) [])
        (scan_loop-Within k h it (ls ++ (ms ++ c ∷ [])) [] bs rs (seen h c before) []
          (subst (λ o. Links h o (bs ++ rs) none)
            (sym (ap (last_or none) (append-nil (ls ++ (ms ++ c ∷ []))) ∙ last)) l)
          (omega (arith, b))) in
    scan_round k h it (last_or none ls) c right before conflicting ls (ms ++ c ∷ bs)
      (Within-here ls (ms ++ c ∷ bs))
      (subst
        (λ o.
          Within ls (ms ++ c ∷ bs)
            (scan_loop k h it (last_or none ls) o right (seen h c before) (seen h c conflicting)))
        (sym next) stays)
      (subst
        (λ o.
          Within ls (ms ++ c ∷ bs)
            (scan_loop k h it o (h.item_at c).right right (seen h c before) []))
        last
        (subst
          (λ o.
            Within ls (ms ++ c ∷ bs)
              (scan_loop k h it (last_or none (ls ++ (ms ++ c ∷ []))) o right (seen h c before) []))
          (sym next) over))

-- The place of an item whose left neighbour is the last of `ls` and whose right one is the first
-- of `rs`: the search ends, and its anchor lies among the items in between.
first_conflict-head :
    (h : Heap) (t : TypePtr) (ls zs : List Ptr)
    → Links h none (ls ++ zs) none
    → (h.type_at t).start ≡ head_or (ls ++ zs) none
    → first_conflict h t (last_or none ls) ≡ head_or zs none
first_conflict-head h t ls zs l s = elim (snoc-cases ls) [
  | inl e ↦
      subst (λ ws. first_conflict h t (last_or none ws) ≡ head_or zs none) (sym e)
        (unfold first_conflict in (rw e at s))
  | inr (ws, p, e) ↦
      let (_, right, _) = Links-append_right h none ws (p ∷ zs) none (rw (e, append_assoc) at l) in
      rw (e, last_or-snoc none ws p) (unfold first_conflict in right)
]

find_integration_left_lem :
    (h : Heap) (t : TypePtr) (n : Ptr) (left right : Option Ptr)
    → find_integration_left h t n left right ≡ (
        if (not (is_found left) && right_is_null_or_has_left h right)
          || left_has_other_right h left right
        then scan_loop (suc h.next_item) h (h.item_at n) left (first_conflict h t left) right [] []
        else done left)
unfolding find_integration_left scan_conflicts
find_integration_left_lem h t n left right = refl

Within-if :
    (ls ms : List Ptr) (b : Bool) (r : Run (Option Ptr))
    → Within ls ms r
    → Within ls ms (if b then r else done (last_or none ls))
Within-if ls ms true r w = w
Within-if ls ms false r w = Within-here ls ms

-- The search for the anchor ends, and the anchor lies between the neighbours that the item was
-- created with.
pub find_integration_left-Within :
    (h : Heap) (t : TypePtr) (n : Ptr) (ls ms rs : List Ptr)
    → Links h none (ls ++ (ms ++ rs)) none
    → (h.type_at t).start ≡ head_or (ls ++ (ms ++ rs)) none
    → length ms ≤ h.next_item
    → Within ls ms (find_integration_left h t n (last_or none ls) (head_or rs none))
find_integration_left-Within h t n ls ms rs l s b =
    rw
      (
        find_integration_left_lem h t n (last_or none ls) (head_or rs none),
        first_conflict-head h t ls (ms ++ rs) l s,
      )
      (Within-if ls ms _ _ (
        scan_loop-Within (suc h.next_item) h (h.item_at n) ls [] ms rs [] []
          (subst (λ zs. Links h (last_or none zs) (ms ++ rs) none) (sym (append-nil ls))
            (Links-append_right h none ls (ms ++ rs) none l))
          (omega arith)))
